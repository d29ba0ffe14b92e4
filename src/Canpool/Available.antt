-- ===== src/Canpool/Available.antt =====
-- The queries of packages/canpool/pool.go that walk the whole range: Available and Stats.
use elp.Prelude.{
  ℕ, zero, suc, ◌+◌, ◌-◌, ◌%◌, ◌≤◌, ◌<◌, ◌≡◌, ◌↔◌, refl, sym, ◌∙◌, true, List, [], ◌∷◌, ◌++◌, arith,
  if◌then◌else◌, Bool-cases, inl, inr, leb, length, All,
}
use elp.Prelude.Eq.{mem, nat_comparable}
use elp.Canpool.Config.{Stats, IsValid}
use elp.Canpool.Pool.{
  Pool, done, next_addr, loop_fuel, is_auto_allocatable, available_from, available, count_from,
  stats,
}
use elp.Canpool.Invariant.{IsConsistent}
use mathlib.Core.List.{append_assoc, append-nil}

abbrev pub Ascending : List ℕ → Type 0
Ascending [] = Unit
Ascending (a ∷ l) = All (λ b. a < b) l × Ascending l

-- The addresses of `n` ones from `a` on that `Allocate` may pick.
autos : Pool → ℕ → ℕ → List ℕ
autos p zero a = []
autos p (suc n) a =
    let rest = autos p n (a + 1) in if is_auto_allocatable p a then a ∷ rest else rest

available_from-eq :
    (n fuel : ℕ) (p : Pool) (a : ℕ) (out : List ℕ)
    → p.cfg.end ≤ 255
    → a + n ≡ p.cfg.end + 1
    → n < fuel
    → available_from fuel p a out ≡ done (out ++ autos p n a)
unfolding available_from autos
available_from-eq n zero p a out m e h = absurd (omega arith)
available_from-eq zero (suc fuel) p a out m e h = simp append-nil (ground arith)
available_from-eq (suc n) (suc fuel) p a out m e h =
    let small : next_addr a ≡ a + 1 = omega arith in
    let inside : leb a p.cfg.end ≡ true = ground arith in
    elim (Bool-cases (is_auto_allocatable p a)) [
      | inl good ↦
          rw (inside, good, small)
            (rw (available_from-eq n fuel p (a + 1) (out ++ a ∷ []) m (omega arith) (omega arith))
              (simp append_assoc))
      | inr bad ↦
          rw (inside, bad, small)
            (available_from-eq n fuel p (a + 1) out m (omega arith) (omega arith))
    ]

count_from-eq :
    (n fuel : ℕ) (p : Pool) (a c : ℕ)
    → p.cfg.end ≤ 255
    → a + n ≡ p.cfg.end + 1
    → n < fuel
    → count_from fuel p a c ≡ done (c + length (autos p n a))
unfolding count_from autos
count_from-eq n zero p a c m e h = absurd (omega arith)
count_from-eq zero (suc fuel) p a c m e h = ground arith
count_from-eq (suc n) (suc fuel) p a c m e h =
    let small : next_addr a ≡ a + 1 = omega arith in
    let inside : leb a p.cfg.end ≡ true = ground arith in
    elim (Bool-cases (is_auto_allocatable p a)) [
      | inl good ↦
          rw (inside, good, small)
            (rw (count_from-eq n fuel p (a + 1) (c + 1) m (omega arith) (omega arith))
              (ground arith))
      | inr bad ↦
          rw (inside, bad, small) (count_from-eq n fuel p (a + 1) c m (omega arith) (omega arith))
    ]

All-mono : (a b : ℕ) (l : List ℕ) → a ≤ b → All (λ c. b < c) l → All (λ c. a < c) l
All-mono a b [] h t = tt
All-mono a b (c ∷ l) h t = (omega arith, All-mono a b l h t.1)

autos_above : (p : Pool) (n a b : ℕ) → b < a → All (λ c. b < c) (autos p n a)
unfolding autos
autos_above p zero a b h = tt
autos_above p (suc n) a b h = ground (arith, autos_above p n (a + 1) b)

autos-Ascending : (p : Pool) (n a : ℕ) → Ascending (autos p n a)
unfolding autos
autos-Ascending p zero a = tt
autos-Ascending p (suc n) a = ground (arith, autos_above p n (a + 1) a, autos-Ascending p n (a + 1))

mem-autos :
    (p : Pool) (n a b : ℕ)
    → (mem b (autos p n a) ≡ true) ↔ ((a ≤ b) × (b < a + n) × (is_auto_allocatable p b ≡ true))
unfolding mem autos
mem-autos p zero a b = (λ h. cc, λ h. absurd (omega arith))
mem-autos p (suc n) a b = elim (Bool-cases (is_auto_allocatable p a)) [
  | inl good ↦
      rw good
        (λ h. ground (arith, mem-autos p n (a + 1) b), λ h. ground (arith, mem-autos p n (a + 1) b))
  | inr bad ↦
      rw bad
        (λ h. ground (arith, mem-autos p n (a + 1) b), λ h. ground (arith, mem-autos p n (a + 1) b))
]

-- All the addresses of the range that `Allocate` may pick.
choices : Pool → List ℕ
choices p = autos p (p.cfg.end + 1 - p.cfg.start) p.cfg.start

mem-choices :
    (p : Pool) (a : ℕ)
    → IsValid p.cfg
    → (mem a (choices p) ≡ true) ↔ (is_auto_allocatable p a ≡ true)
unfolding choices is_auto_allocatable
mem-choices p a v =
    let (there, back) = mem-autos p (p.cfg.end + 1 - p.cfg.start) p.cfg.start a in
    (λ h. (there h).2, λ h. back (ground arith, ground arith, h))

available-choices : (p : Pool) → IsValid p.cfg → available p ≡ done (choices p)
unfolding available choices
available-choices p v =
    available_from-eq (p.cfg.end + 1 - p.cfg.start) loop_fuel p p.cfg.start [] v.end_max
      (omega (arith, v)) (omega (arith, v))

-- On a consistent pool `Available` always returns, in ascending order, exactly the addresses of
-- which IsAutoAllocatable holds.
pub available_exact :
    (p : Pool)
    → IsConsistent p
    → (l : List ℕ) × (available p ≡ done l)
      × Ascending l
      × ((a : ℕ) → (mem a l ≡ true) ↔ (is_auto_allocatable p a ≡ true))
unfolding choices
available_exact p v = (
  choices p,
  available-choices p v.cfg_valid,
  autos-Ascending p (p.cfg.end + 1 - p.cfg.start) p.cfg.start,
  λ a. mem-choices p a v.cfg_valid,
)

-- On a consistent pool `Stats` always returns: the range size is the number of addresses from
-- start to end, `Reserved` and `Allocated` are the sizes of the two tables, and `AutoAvailable` is
-- the length of what `Available` returns.
pub stats_exact :
    (p : Pool) (l : List ℕ)
    → IsConsistent p
    → available p ≡ done l
    → (s : Stats) × (stats p ≡ done s)
      × (s.range_size ≡ p.cfg.end - p.cfg.start + 1)
      × (s.reserved ≡ length p.reserved)
      × (s.allocated ≡ length p.owner_by_addr)
      × (s.auto_available ≡ length l)
unfolding stats choices
stats_exact p l v e =
    let counted =
      count_from-eq (p.cfg.end + 1 - p.cfg.start) loop_fuel p p.cfg.start 0 v.cfg_valid.end_max
        (omega (arith, v)) (omega (arith, v)) in
    let listed : done (choices p) ≡ done l = sym (available-choices p v.cfg_valid) ∙ e in
    (
      record {
        range_size = (p.cfg.end + 65536 - p.cfg.start) % 65536 + 1;
        reserved = length p.reserved;
        allocated = length p.owner_by_addr;
        auto_available = 0 + length (autos p (p.cfg.end + 1 - p.cfg.start) p.cfg.start);
      },
      rw (counted, stats),
      omega (arith, v),
      refl,
      refl,
      ground (arith, listed),
    )
