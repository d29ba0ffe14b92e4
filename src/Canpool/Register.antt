-- ===== src/Canpool/Register.antt =====
-- What a pool promises (packages/canpool/pool.go), on nothing but who has which address.
use elp.Prelude.{ℕ, ◌≤◌, ◌≡◌, ◌≢◌, String, Bool, false, Option, none, some, if◌then◌else◌}
use elp.Prelude.Result.{Result, ok, err}
use elp.Prelude.Eq.{◌==◌, string_comparable}
use elp.Canpool.Config.{
  Err, owner_required, address_required, address_out_of_range, owner_already_assigned,
  address_in_use, no_address_available, owner_not_found,
}

-- The address of each owner.
abbrev pub Register : Type 0
Register = String → Option ℕ

pub data Call : Type 0 where
  to_allocate : String → Call
  to_claim : String → ℕ → Call
  to_release : String → Call
  to_release_address : ℕ → Call

-- The owner that a call names.
abbrev pub named : Call → Option String
named (to_allocate owner) = some owner
named (to_claim owner addr) = some owner
named (to_release owner) = some owner
named (to_release_address addr) = none

-- The address, where a call returns one.
abbrev pub Reply : Type 0
Reply = Result Err (Option ℕ)

abbrev pub Gives : Register → String → ℕ → Register → Type 0
Gives m owner a after = (o : String) → after o ≡ (if owner == o then some a else m o)

abbrev pub Drops : Register → String → Register → Type 0
Drops m owner after = (o : String) → after o ≡ (if owner == o then none else m o)

abbrev pub Unheld : Register → ℕ → Type 0
Unheld m a = (o : String) → m o ≢ some a

module _ (start end : ℕ) (reserved : ℕ → Bool) where
  abbrev pub Inside : ℕ → Type 0
  Inside a = (start ≤ a) × (a ≤ end)

  -- Automatic allocation may take the address.
  pub record IsOpen (m : Register) (a : ℕ) : Type 0 where
    pub inside : Inside a
    pub unreserved : reserved a ≡ false
    pub unheld : Unheld m a

  -- The register before a call, the call, its reply and the register after it.
  pub data Does : Register → Call → Reply → Register → Type 0 where
    unnamed : (m : Register) (c : Call) → named c ≡ some "" → Does m c (err owner_required) m
    allocate_again :
        (m : Register) (owner : String) (a : ℕ)
        → owner ≢ ""
        → m owner ≡ some a
        → Does m (to_allocate owner) (ok (some a)) m
    allocate_lowest :
        (m after : Register) (owner : String) (a : ℕ)
        → owner ≢ ""
        → m owner ≡ none
        → IsOpen m a
        → ((b : ℕ) → IsOpen m b → a ≤ b)
        → Gives m owner a after
        → Does m (to_allocate owner) (ok (some a)) after
    allocate_full :
        (m : Register) (owner : String)
        → owner ≢ ""
        → m owner ≡ none
        → ((b : ℕ) → ¬ IsOpen m b)
        → Does m (to_allocate owner) (err no_address_available) m
    claim_zero :
        (m : Register) (owner : String) (a : ℕ)
        → owner ≢ ""
        → a ≡ 0
        → Does m (to_claim owner a) (err address_required) m
    claim_outside :
        (m : Register) (owner : String) (a : ℕ)
        → owner ≢ ""
        → a ≢ 0
        → ¬ Inside a
        → Does m (to_claim owner a) (err address_out_of_range) m
    claim_again :
        (m : Register) (owner : String) (a : ℕ)
        → owner ≢ ""
        → Inside a
        → m owner ≡ some a
        → Does m (to_claim owner a) (ok none) m
    claim_other :
        (m : Register) (owner : String) (a b : ℕ)
        → owner ≢ ""
        → Inside a
        → m owner ≡ some b
        → b ≢ a
        → Does m (to_claim owner a) (err (owner_already_assigned owner b)) m
    claim_taken :
        (m : Register) (owner other : String) (a : ℕ)
        → owner ≢ ""
        → Inside a
        → m owner ≡ none
        → m other ≡ some a
        → Does m (to_claim owner a) (err (address_in_use a other)) m
    claim_free :
        (m after : Register) (owner : String) (a : ℕ)
        → owner ≢ ""
        → Inside a
        → m owner ≡ none
        → Unheld m a
        → Gives m owner a after
        → Does m (to_claim owner a) (ok none) after
    release_unknown :
        (m : Register) (owner : String)
        → owner ≢ ""
        → m owner ≡ none
        → Does m (to_release owner) (err owner_not_found) m
    release_known :
        (m after : Register) (owner : String) (a : ℕ)
        → owner ≢ ""
        → m owner ≡ some a
        → Drops m owner after
        → Does m (to_release owner) (ok none) after
    release_unused :
        (m : Register) (a : ℕ) → Unheld m a → Does m (to_release_address a) (err owner_not_found) m
    release_used :
        (m after : Register) (owner : String) (a : ℕ)
        → m owner ≡ some a
        → Drops m owner after
        → Does m (to_release_address a) (ok none) after
