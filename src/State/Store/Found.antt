-- ===== src/State/Store/Found.antt =====
-- A runtime that is loaded was checked.
use localcloud_cli.Prelude.{
  refl, Option, none, some, Option-cases, inl, inr, Result, ok, raise, if_both, Returns, Returns-ok,
  Returns-raise, Returns-after, value_error, recursion_error,
}
use localcloud_cli.Text.{Text}
use localcloud_cli.Dict
use localcloud_cli.Dict.{Dict}
use localcloud_cli.Dict.Laws.{get-All}
use localcloud_cli.Value.{str}
use localcloud_cli.State.{ActiveRuntime, validate_data_volume}
use localcloud_cli.State.Codec.{State, decode_active_state}
use localcloud_cli.State.Codec.RoundTrip.{IsRuntime, IsKeyed, IsState}
use localcloud_cli.State.Codec.Sound.{decode-IsState}
use localcloud_cli.State.Store.{
  File, missing, unreadable, not_utf_8, not_json, too_nested, json, load_active_runtime,
  select_runtime, or_diagnostic, Loaded, caught,
}

abbrev pub IsChecked : Option ActiveRuntime → Type 0
IsChecked none = Unit {0}
IsChecked (some r) = IsRuntime r

get-IsChecked : (k : Text) (s : State) → IsState s → IsChecked (Dict.get k s.0)
get-IsChecked k s h = elim (Option-cases (Dict.get k s.0)) [
  | inl absent ↦ rw absent tt
  | inr (r, found) ↦ rw found (get-All IsKeyed k r s.0 h.runtimes found).1
]

module _ (hexdigest : Text → Text) where
  select_runtime-IsChecked :
      (v : Option Text) (s : State) → IsState s → Returns IsChecked (select_runtime hexdigest v s)
  unfolding select_runtime
  select_runtime-IsChecked none s h = Returns-ok _ (get-IsChecked s.1 s h)
  select_runtime-IsChecked (some v) s h =
      Returns-after (validate_data_volume (str v)) _
        λ selected _. Returns-ok _ (get-IsChecked selected s h)

  or_diagnostic-IsChecked :
      (r : Result (Option ActiveRuntime))
      → Returns IsChecked r
      → Returns (λ (l : Loaded). IsChecked l.0) (or_diagnostic hexdigest r)
  unfolding or_diagnostic
  or_diagnostic-IsChecked (ok found) h = Returns-ok _ (h.at found refl)
  or_diagnostic-IsChecked (raise e) h =
      if_both (Returns (λ (l : Loaded). IsChecked l.0)) (caught e) _ _ (Returns-ok _ tt)
        (Returns-raise e)

  pub load_active_runtime-IsChecked :
      (file : File) (v : Option Text)
      → Returns (λ (l : Loaded). IsChecked l.0) (load_active_runtime hexdigest file v)
  unfolding load_active_runtime
  load_active_runtime-IsChecked missing v = Returns-ok _ tt
  load_active_runtime-IsChecked unreadable v = Returns-ok _ tt
  load_active_runtime-IsChecked not_utf_8 v = Returns-ok _ tt
  load_active_runtime-IsChecked not_json v = or_diagnostic-IsChecked _ (Returns-raise value_error)
  load_active_runtime-IsChecked too_nested v =
      or_diagnostic-IsChecked _ (Returns-raise recursion_error)
  load_active_runtime-IsChecked (json d) v = or_diagnostic-IsChecked _ (
      Returns-after (decode_active_state hexdigest d) _
        λ s e. select_runtime-IsChecked v s (decode-IsState hexdigest d s e))
