-- ===== src/Huepush/Push.antt =====
-- huepush/huepush.go: the switches to update, and the requests that update them.
pub mod Quiet
use cfg.Base.{Bool, List, Option, [], false, if◌then◌else◌, keep, none, some, ℕ, ◌++◌, ◌==◌, ◌∷◌}
use cfg.Text.{Text, codes, split}
use cfg.Text.Sort.{sort}
use cfg.Dict.{get_or, keys, lookup}
use cfg.Huepush.State.{
  Bridge, Result, Switch, fail, ok, panics, request_failed, unreadable, update_failed, ◌>>=◌,
}
use cfg.Huepush.Json.{Json, as_items, jget}
use cfg.Huepush.Extract.{bridge_data, extract}
use cfg.Huepush.Intent.{Wish, grant_all}

unfoldable pub is_changed : Bridge → Text → Bool
unfolding get_or lookup
is_changed b name = elim (lookup (get_or [] name b.switch_ids) b.switches) [
  | none ↦ false
  | some sw ↦ sw.changed
]

-- The names of the switches to update, sorted
unfoldable pub to_update : Bridge → List Text
unfolding is_changed sort keys
to_update b = keep (is_changed b) (sort (keys b.switch_ids))

-- What Run calls: the template, which may fail, and the bridge with the status of its answers
pub record Environment : Type 0 where
  pub execute : Switch → Option Text
  pub put : (address body : Text) → Option ℕ
  pub get : (address : Text) → Option (ℕ × Json)
  pub scan : Text → Option Wish
  pub cfg_bytes : Option Text

pub record Sent : Type 0 where
  pub address : Text
  pub body : Text

-- The requests that were sent, and how it ended
abbrev pub Pushed : Type 0
Pushed = List Sent × Result Unit

abbrev pub after_put : Text → Sent → Option ℕ → Pushed → Pushed
after_put name sent none rest = (sent ∷ [], fail (update_failed name))
after_put name sent (some status) rest =
    if status == 200 then (sent ∷ rest.0, rest.1) else (sent ∷ [], fail (update_failed name))

abbrev pub push_switch : Environment → (host name : Text) → Option Switch → Pushed → Pushed
push_switch env host name none rest = ([], fail panics)
push_switch env host name (some sw) rest = elim (env.execute sw) [
  | none ↦ ([], fail (update_failed name))
  | some body ↦
      let address = host ++ codes "/clip/v2/resource/behavior_instance/" ++ sw.behavior_id in
      after_put name (record { address = address; body = body }) (env.put address body) rest
]

-- The loop over the switches to update; it ends at the first fault.
unfoldable pub push_all : Environment → (host : Text) → Bridge → List Text → Pushed
unfolding get_or lookup
push_all env host b [] = ([], ok tt)
push_all env host b (name ∷ names) =
    push_switch env host name (lookup (get_or [] name b.switch_ids) b.switches)
      (push_all env host b names)

-- Run from the intent on, without the -dump flag
unfoldable pub push : Environment → (apply : Bool) → (host : Text) → Result Bridge → Pushed
unfolding to_update push_all
push env apply host (fail e) = ([], fail e)
push env apply host (ok b) = if apply then push_all env host b (to_update b) else ([], ok tt)

-- The bridge's data
unfoldable pub resources : Option (ℕ × Json) → Result (List Json)
unfolding jget as_items
resources none = fail request_failed
resources (some (status, body)) =
    if status == 200 then jget (codes "data" ∷ []) body >>= as_items else fail request_failed

unfoldable pub load_bridge : Environment → (host : Text) → Result Bridge
unfolding resources extract
load_bridge env host = resources (env.get (host ++ codes "/clip/v2/resource")) >>= extract

unfoldable pub run_with :
    Environment → (apply : Bool) → (cfg : Text) → Result (Text × Text) → Pushed
unfolding push grant_all load_bridge split
run_with env apply cfg (fail e) = ([], fail e)
run_with env apply cfg (ok (host, key)) =
    push env apply host (load_bridge env host >>= grant_all env.scan 0 (split b'\n' cfg))

-- Run
unfoldable pub run : Environment → (apply : Bool) → Pushed
unfolding run_with bridge_data
run env apply = elim env.cfg_bytes [
  | none ↦ ([], fail unreadable)
  | some cfg ↦ run_with env apply cfg (bridge_data cfg)
]
