-- ===== src/Config/Manager.antt =====
-- internal/config/manager.go: the configuration that the program runs on, and its reload. What
-- LoadRuntimeConfig gives is an argument, `none` for an error, and so is each digest of the file.
use llmsentinel_router.Prelude.{
  String, ◌==◌, ◌≢◌, Bool, true, false, Option, none, some, List, [], ◌∷◌, if◌then◌else◌, arith,
}
use llmsentinel_router.Config.{SentinelConfig}

pub record Manager (F : Type 0) : Type 0 where
  pub config : Option (SentinelConfig F)
  pub source : String
  pub digest : String

-- The results of ReloadIfChanged: whether there is a new configuration, or an error.
pub data Reloaded : Type 0 where
  unchanged changed load_failed : Reloaded

-- One tick of Watch: the digest that it reads first, what the load gives, and the digest after it.
pub record Tick (F : Type 0) : Type 0 where
  pub digest_before : String
  pub loaded : Option (SentinelConfig F × String)
  pub digest_after : String

module _ {F : Type 0} where
  -- `true` is success.
  unfoldable pub force_reload :
      Option (SentinelConfig F × String) → String → Manager F → Bool × Manager F
  force_reload none digest m = (false, m)
  force_reload (some (cfg, source)) digest m =
      (true, record { config = some cfg; source = source; digest = digest })

  unfoldable pub new_manager : Option (SentinelConfig F × String) → String → Option (Manager F)
  unfolding force_reload
  new_manager loaded digest =
      let (fine, m) =
        force_reload loaded digest (record { config = none; source = ""; digest = "" }) in
      if fine then some m else none

  unfoldable pub reload_if_changed : Tick F → Manager F → Reloaded × Manager F
  unfolding force_reload
  reload_if_changed t m =
      let (fine, m') = force_reload t.loaded t.digest_after m in
      if t.digest_before == m.digest
      then (unchanged, m)
      else if fine
      then (changed, m')
      else (load_failed, m')

  unfoldable pub watch : List (Tick F) → Manager F → Manager F
  unfolding reload_if_changed
  watch [] m = m
  watch (t ∷ ts) m = watch ts (reload_if_changed t m).1

  reload_if_changed-kept :
      (t : Tick F) (m : Manager F) → m.config ≢ none → (reload_if_changed t m).1.config ≢ none
  unfolding reload_if_changed
  reload_if_changed-kept t m h = ground arith

  -- A manager that has a configuration has one after any ticks, whatever they load.
  pub watch-kept :
      (ts : List (Tick F)) (m : Manager F) → m.config ≢ none → (watch ts m).config ≢ none
  unfolding watch
  watch-kept [] m h = h
  watch-kept (t ∷ ts) m h = watch-kept ts (reload_if_changed t m).1 (reload_if_changed-kept t m h)
