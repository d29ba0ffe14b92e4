-- ===== src/Canpool/Invariant.antt =====
-- The consistency of a pool (packages/canpool/pool.go): what relates its two maps.
use elp.Prelude.{ℕ, ◌≤◌, ◌≡◌, ◌≢◌, String, true, none, some, arith}
use elp.Prelude.Eq.{nat_comparable, string_comparable, string_eq_iff}
use elp.Prelude.Assoc.{lookup, lookup-insert}
use elp.Canpool.Config.{IsValid}
use elp.Canpool.Pool.{Pool, in_range, assign}

pub record IsConsistent (p : Pool) : Type 0 where
  pub cfg_valid : IsValid p.cfg
  pub owned :
      (a : ℕ) (o : String) → lookup a p.owner_by_addr ≡ some o → lookup o p.addr_by_owner ≡ some a
  pub held :
      (o : String) (a : ℕ) → lookup o p.addr_by_owner ≡ some a → lookup a p.owner_by_addr ≡ some o
  pub ranged : (o : String) (a : ℕ) → lookup o p.addr_by_owner ≡ some a → in_range p a ≡ true
  pub named : (a : ℕ) (o : String) → lookup a p.owner_by_addr ≡ some o → o ≢ ""

pub in_range_iff : (p : Pool) (a : ℕ) → in_range p a ≡ true → (p.cfg.start ≤ a) × (a ≤ p.cfg.end)
unfolding in_range
in_range_iff p a h = ground arith

-- The one place where an address is given out.
pub assign-IsConsistent :
    {p : Pool} (owner : String) (addr : ℕ)
    → IsConsistent p
    → in_range p addr ≡ true
    → owner ≢ ""
    → lookup addr p.owner_by_addr ≡ none
    → lookup owner p.addr_by_owner ≡ none
    → IsConsistent (assign p owner addr)
unfolding assign in_range
assign-IsConsistent {p} owner addr v r n fa fo = record {
  cfg_valid = v.cfg_valid;
  owned = λ a o h. ground (
    arith,
    lookup-insert addr a owner p.owner_by_addr,
    lookup-insert owner o addr p.addr_by_owner,
    v.owned a o,
    string_eq_iff owner o,
    lookup-insert addr a owner p.owner_by_addr,
  );
  held = λ o a h. ground (
    arith,
    lookup-insert addr a owner p.owner_by_addr,
    lookup-insert owner o addr p.addr_by_owner,
    v.held o a,
    string_eq_iff owner o,
  );
  ranged = λ o a h.
      ground
        (arith, lookup-insert owner o addr p.addr_by_owner, v.ranged o a, string_eq_iff owner o);
  named = λ a o h. ground (arith, lookup-insert addr a owner p.owner_by_addr, v.named a o);
}
