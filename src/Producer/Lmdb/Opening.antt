-- ===== src/Producer/Lmdb/Opening.antt =====
-- producer/lmdb/db.go: what `newDB` says of a failure.
use ttobserver_v.Base.{◌≡◌, ◌≢◌, refl, ◌⊎◌, inl, inr, none, some, arith, eq_iff, string_eq}
use ttobserver_v.Shared.Errors.{Fault}
use ttobserver_v.Producer.Lmdb.{Settings, Env, make_env, if_ok, stages, finish, new_db}

module _ {W : Type 0} (cfg : Settings) (env : Env W) where
  -- Without an environment every later step is left out.
  stages-unmade : (e : Fault) (w : W) → e ≢ none → (stages cfg env e w).0 ≢ none
  unfolding stages if_ok
  stages-unmade none w h = absurd (h refl)
  stages-unmade (some e) w h = λ q. cc (q)

  finish-made :
      (closes : (w : W) → (env.close w).0 ≡ none) (made e : Fault) (w : W)
      → made ≡ none
      → (finish cfg env made e w).0 ≡ some none
  unfolding finish
  finish-made closes made none w h = refl
  finish-made closes none (some e) w h = rw (closes w) refl
  finish-made closes (some x) (some e) w h = absurd (cc (h))

  finish-unmade :
      (made e : Fault) (w : W) → made ≢ none → e ≢ none → (finish cfg env made e w).0 ≡ none
  unfolding finish
  finish-unmade made none w m h = absurd (h refl)
  finish-unmade none (some e) w m h = absurd (m refl)
  finish-unmade (some x) (some e) w m h = refl

  -- When the settings are complete and an environment that is there can be closed: where the
  -- environment was made, newDB reports no error, whichever later step has failed; where it was
  -- not made, newDB panics.
  pub new_db-none :
      (w : W)
      → cfg.path ≢ ""
      → cfg.db_name ≢ ""
      → ((w : W) → (env.close w).0 ≡ none)
      → (((make_env cfg env w).0 ≡ none) × ((new_db cfg env w).0 ≡ some none))
        ⊎ (((make_env cfg env w).0 ≢ none) × ((new_db cfg env w).0 ≡ none))
  unfolding new_db
  new_db-none w named table closes =
      let (made, w₁) = make_env cfg env w in let (e, w₂) = stages cfg env made w₁ in go made refl
    where
      go :
          (m : Fault)
          → (make_env cfg env w).0 ≡ m
          → (((make_env cfg env w).0 ≡ none) × ((new_db cfg env w).0 ≡ some none))
            ⊎ (((make_env cfg env w).0 ≢ none) × ((new_db cfg env w).0 ≡ none))
      go none h =
          let (made, w₁) = make_env cfg env w in
          let (e, w₂) = stages cfg env made w₁ in
          inl (
            h,
            ground
                (arith, eq_iff cfg.path "", eq_iff cfg.db_name "", finish-made closes made e w₂ h),
          )
      go (some x) h =
          let (made, w₁) = make_env cfg env w in
          let (e, w₂) = stages cfg env made w₁ in
          let failed : made ≢ none = λ q. cc (q, h) in
          inr (
            failed,
            ground (
              arith,
              eq_iff cfg.path "",
              eq_iff cfg.db_name "",
              finish-unmade made e w₂ failed (stages-unmade made w₁ failed),
            ),
          )
