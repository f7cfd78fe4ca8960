-- ===== src/Env/Instance.antt =====
-- GetInstance moves the object out of `instance_`, so there is no single instance.
use rocks_db_wrapper.Base.{◌≡◌, refl, Option, none, some}
use rocks_db_wrapper.Env.{DbEnv, new_db_env, get_instance}

-- Whatever was there before, a second call hands out another object, with the defaults, and not the
-- one that the first call returned, whose settings it does not have.
pub get_instance_twice :
    (instance_ : Option DbEnv)
    → let (first, left) = get_instance instance_ in
      let (second, left') = get_instance left in
      (left ≡ none) × (second ≡ new_db_env) × (left' ≡ none)
unfolding get_instance
get_instance_twice none = (refl, refl, refl)
get_instance_twice (some env) = (refl, refl, refl)
