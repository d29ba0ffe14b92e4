-- ===== src/Operator/Cluster.antt =====
-- The Kubernetes API server, as the controllers and the gateway use it through
-- sigs.k8s.io/controller-runtime: a parameter. `S` is the state of the cluster, `E` an error.
use elp.Prelude.{String, List}
use elp.Prelude.Result.{Result}
use elp.Prelude.Action.{Action}

-- The calls on one kind of object. A call that writes returns the object as the server answers it.
-- `update` and `patch` write an object less its status, which `update_status` and `patch_status`
-- write; the first argument of a patch is the object before it was changed.
pub record Resource (S E A : Type 0) : Type 0 where
  pub get : String → String → S → Result E A
  pub list : S → Result E (List A)
  pub list_in : String → S → Result E (List A)
  pub create : A → Action S E A
  pub update : A → Action S E A
  pub patch : A → A → Action S E A
  pub update_status : A → Action S E A
  pub patch_status : A → A → Action S E A
  pub delete : String → String → Action S E (Unit {0})
  -- controllerutil.CreateOrUpdate, with the function that sets the wanted fields.
  pub create_or_update : A → (A → Result E A) → Action S E A
