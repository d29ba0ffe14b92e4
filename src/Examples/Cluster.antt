-- ===== src/Examples/Cluster.antt =====
-- Clusters in memory, on which the calls of the controllers and of the gateway run.
use Prim.Native.String.{◌++◌}
use elp.Prelude.{
  ◌≡◌, String, Bool, true, false, Option, none, some, [], ◌∷◌, if◌then◌else◌, Bool-cases, arith,
  inl, inr,
}
use elp.Prelude.Result.{ok, err, ok_inj}
use elp.Prelude.Eq.{◌==◌, string_comparable}
use elp.Prelude.Int.{pos}
use elp.Operator.Cluster.{Resource}
use elp.Operator.Device.{Net}

abbrev pub not_found : String
not_found = "not found"

abbrev pub is_not_found : String → Bool
is_not_found e = e == not_found

-- An object that is always there, or one that never is. Writes are accepted and forgotten.
abbrev pub fixed : {S A : Type 0} → Option A → Resource S String A
fixed {S} {A} there = record {
  get = λ namespace name s. elim there [ none ↦ err not_found | some a ↦ ok a ];
  list = λ s. elim there [ none ↦ ok [] | some a ↦ ok (a ∷ []) ];
  list_in = λ namespace s. elim there [ none ↦ ok [] | some a ↦ ok (a ∷ []) ];
  create = λ a s. (ok a, s);
  update = λ a s. (ok a, s);
  patch = λ base a s. (ok a, s);
  update_status = λ a s. (ok a, s);
  patch_status = λ base a s. (ok a, s);
  delete = λ namespace name s. (err not_found, s);
  create_or_update = λ a set s. (set a, s);
}

-- The cluster holds this one object.
abbrev pub single : {A : Type 0} → (A → String) → Resource A String A
single {A} name_of = record {
  get = λ namespace name s. if name == name_of s then ok s else err not_found;
  list = λ s. ok (s ∷ []);
  list_in = λ namespace s. ok (s ∷ []);
  create = λ a s. (ok a, a);
  update = λ a s. (ok a, a);
  patch = λ base a s. (ok a, a);
  update_status = λ a s. (ok a, a);
  patch_status = λ base a s. (ok a, a);
  delete = λ namespace name s. (err not_found, s);
  create_or_update = λ a set s. (set a, s);
}

pub single-found :
    {A : Type 0} (name_of : A → String) (namespace name : String) (s a : A)
    → (single name_of).get namespace name s ≡ ok a
    → ((name == name_of s) ≡ true) × (s ≡ a)
single-found name_of namespace name s a h = elim (Bool-cases (name == name_of s)) [
  | inl same ↦ (same, ok_inj (rw same at h))
  | inr other ↦ ground (arith, other, h)
]

-- A network library that knows one address.
abbrev pub one_address : Net
one_address = record {
  join_host_port = λ host port. host ++ (":" ++ port);
  split_host_port = λ s. if s == "z21:21105" then some ("z21", "21105") else none;
  parse_int32 = λ s. if s == "21105" then some (pos 21105) else none;
  format_int = λ n. "21105";
  equal_fold = λ s t. s == t;
  has_suffix = λ s t. false;
  trim_suffix = λ s t. s;
  trim_space = λ s. s;
  parse_bool = λ s. if s == "true" then some true else none;
  parse_url = λ s. none;
  with_host = λ s host. s;
}
