-- ===== src/Gdsnap/Save/Settled.antt =====
-- A path that was just uploaded is not uploaded again.
use cfg.Base.{arith, drop, false, inl, inr, length, refl, some, suc, true, ℕ, ◌≡◌, ◌≢◌, ◌≤◌, ◌⊎◌}
use cfg.Text.{Text, has_prefix, text_eq_iff}
use cfg.Dict.{Dict, get_or, has_key, insert, lookup, lookup-insert_self}
use cfg.Gdsnap.Crypt.{Crypt}
use cfg.Gdsnap.Token.{TokenResponse, gettoken}
use cfg.Gdsnap.Save.Send.{Drive, Environment, carry_out, large, savepath, send}
use cfg.Gdsnap.Save.Send.Laws.{gettoken-keeps}
use cfg.Gdsnap.State.{Fatal, FileInfo, Gdsnap, Result, fatal, ok}
use cfg.Gdsnap.Save.Data.{
  Disk, Flags, Plan, Request, Stat, descend, directory, ignored, skip, upload,
}
use cfg.Gdsnap.Save.Plan.{is_ignored, no_info, plan, plan_relpath, request}

abbrev pub IsSkip : Plan → Type 0
IsSkip (skip why) = Unit
IsSkip (descend ps) = ⊥
IsSkip (upload r) = ⊥

-- What a later save of the path finds of the earlier one.
record Recorded (gs gs' : Gdsnap) (relpath : Text) (newfi : FileInfo) : Type 0 where
  same_ignore : gs'.ignore ≡ gs.ignore
  listed : has_key relpath gs'.files ≡ true
  entry : get_or no_info relpath gs'.files ≡ newfi

has_key-of_lookup :
    (k : Text) (v : FileInfo) (m : Dict FileInfo)
    → lookup k m ≡ some v
    → (has_key k m ≡ true) × (get_or no_info k m ≡ v)
unfolding has_key get_or
has_key-of_lookup k v m h = (ground arith, ground arith)

module _ (flags : Flags) (disk : Disk) (c : Crypt) (nonce : Text) (gs : Gdsnap)
    (relpath abspath : Text) (st : Stat) {r : Request}
    (on_disk : disk.lstat abspath ≡ some st) where
  upload-facts :
      plan_relpath flags disk c nonce gs relpath abspath ≡ upload r
      → ((is_ignored gs.ignore relpath ≡ true) × (r.newfi.trashed ≡ true))
        ⊎ ((is_ignored gs.ignore relpath ≡ false)
            × (st.kind ≢ directory)
            × (r.newfi.trashed ≡ false)
            × (r.newfi.modified_time ≡ st.mod_time))
  unfolding plan_relpath request
  upload-facts h = ground arith

skip-ignored :
    (flags : Flags) (disk : Disk) (c : Crypt) (nonce : Text) (gs : Gdsnap) (relpath abspath : Text)
    → is_ignored gs.ignore relpath ≡ true
    → (get_or no_info relpath gs.files).trashed ≡ true
    → plan_relpath flags disk c nonce gs relpath abspath ≡ skip ignored
unfolding plan_relpath
skip-ignored flags disk c nonce gs relpath abspath ign trashed = ground arith

IsSkip-same_time :
    (flags : Flags) (disk : Disk) (c : Crypt) (nonce : Text) (gs : Gdsnap) (relpath abspath : Text)
    (st : Stat)
    → disk.lstat abspath ≡ some st
    → st.kind ≢ directory
    → is_ignored gs.ignore relpath ≡ false
    → (get_or no_info relpath gs.files).trashed ≡ false
    → (get_or no_info relpath gs.files).modified_time ≡ st.mod_time
    → IsSkip (plan_relpath flags disk c nonce gs relpath abspath)
unfolding plan_relpath
IsSkip-same_time flags disk c nonce gs relpath abspath st on_disk kind ign trashed time = ground (
  arith,
  text_eq_iff (get_or no_info relpath gs.files).modified_time st.mod_time,
  text_eq_iff st.mod_time (get_or no_info relpath gs.files).modified_time,
)

send-ok :
    (drive : Drive) (gs : Gdsnap) (r : Request) {gs' : Gdsnap}
    → length r.contents ≤ large
    → send drive gs r ≡ ok gs'
    → gs' ≡ record gs { files = insert r.relpath r.newfi gs.files }
unfolding send
send-ok drive gs r small h = ground arith

Result-cases : (t : Result Gdsnap) → ((why : Fatal) × (t ≡ fatal why)) ⊎ ((g : Gdsnap) × (t ≡ ok g))
Result-cases (ok g) = inr (g, refl)
Result-cases (fatal why) = inl (why, refl)

upload-Recorded :
    (env : Environment) (save : Gdsnap → Text → Result Gdsnap) (gs : Gdsnap) (r : Request)
    {gs' : Gdsnap}
    → length r.contents ≤ large
    → carry_out env save gs (upload r) ≡ ok gs'
    → Recorded gs gs' r.relpath r.newfi
upload-Recorded env save gs r {gs'} small h =
    elim (Result-cases (gettoken env.refreshtoken env.now env.answer gs)) [
      | inl (why, e) ↦ absurd (never why (rw e at h))
      | inr (gs1, e) ↦ recorded gs1 e (rw e at h)
    ]
  where
    never : (why : Fatal) → ◌≡◌ {A = Result Gdsnap} (fatal why) (ok gs') → ⊥
    never why e = cc

    recorded :
        (gs1 : Gdsnap)
        → gettoken env.refreshtoken env.now env.answer gs ≡ ok gs1
        → send env.drive gs1 r ≡ ok gs'
        → Recorded gs gs' r.relpath r.newfi
    recorded gs1 e sent =
        let now_saved = send-ok env.drive gs1 r small sent in
        let found =
          has_key-of_lookup r.relpath r.newfi (insert r.relpath r.newfi gs1.files)
            (lookup-insert_self r.relpath r.newfi gs1.files) in
        rw now_saved (record {
          same_ignore = (gettoken-keeps env.refreshtoken env.now env.answer gs e).1;
          listed = found.0;
          entry = found.1;
        })

plan-cases :
    (flags : Flags) (disk : Disk) (c : Crypt) (nonce : Text) (gs : Gdsnap) (abspath : Text)
    {r : Request}
    → plan flags disk c nonce gs abspath ≡ upload r
    → (has_prefix abspath flags.dir ≡ true)
      × (plan_relpath flags disk c nonce gs (drop (length flags.dir) abspath) abspath ≡ upload r)
      × (r.relpath ≡ drop (length flags.dir) abspath)
unfolding plan plan_relpath request
plan-cases flags disk c nonce gs abspath h = ground arith

plan_relpath-settled :
    (flags : Flags) (disk : Disk) (c c' : Crypt) (nonce nonce' : Text) (gs gs' : Gdsnap)
    (relpath abspath : Text) (st : Stat) {r : Request}
    → disk.lstat abspath ≡ some st
    → plan_relpath flags disk c nonce gs relpath abspath ≡ upload r
    → Recorded gs gs' relpath r.newfi
    → IsSkip (plan_relpath flags disk c' nonce' gs' relpath abspath)
plan_relpath-settled flags disk c c' nonce nonce' gs gs' relpath abspath st {r} on_disk h rec =
    elim (upload-facts flags disk c nonce gs relpath abspath st on_disk h) [
      | inl (ign, trashed) ↦
          rw
            (skip-ignored flags disk c' nonce' gs' relpath abspath (rw rec.same_ignore ign)
              (rw rec.entry trashed))
            tt
      | inr (ign, kind, live, time) ↦
          IsSkip-same_time flags disk c' nonce' gs' relpath abspath st on_disk kind
            (rw rec.same_ignore ign) (rw rec.entry live) (rw rec.entry time)
    ]

carry_out-skip :
    (env : Environment) (save : Gdsnap → Text → Result Gdsnap) (gs : Gdsnap) (p : Plan)
    → IsSkip p
    → carry_out env save gs p ≡ ok gs
carry_out-skip env save gs (skip why) h = refl
carry_out-skip env save gs (descend ps) h = absurd h
carry_out-skip env save gs (upload r) h = absurd h

-- Saving a path again right after an upload in one request does nothing: no token is fetched, no
-- request is sent and gs stays as it is, whatever has happened on the drive and with the clock.
pub savepath_twice :
    (env : Environment) (drive : Drive) (now : ℕ) (answer : TokenResponse) (f f' : ℕ)
    (gs gs' : Gdsnap) (abspath : Text) (st : Stat) (r : Request)
    → env.disk.lstat abspath ≡ some st
    → plan env.flags env.disk env.crypt (env.nonces abspath) gs abspath ≡ upload r
    → length r.contents ≤ large
    → savepath (suc f) env gs abspath ≡ ok gs'
    → savepath (suc f') (record env { drive = drive; now = now; answer = answer }) gs' abspath
      ≡ ok gs'
unfolding savepath plan
savepath_twice env drive now answer f f' gs gs' abspath st r on_disk planned small saved =
    let (under, planned_rel, named) =
      plan-cases env.flags env.disk env.crypt (env.nonces abspath) gs abspath planned in
    let recorded : Recorded gs gs' (drop (length env.flags.dir) abspath) r.newfi =
      rw (← named) (upload-Recorded env (savepath f env) gs r small (rw planned at saved)) in
    rw under (
      carry_out-skip (record env { drive = drive; now = now; answer = answer }) _ gs' _
        (plan_relpath-settled env.flags env.disk env.crypt env.crypt (env.nonces abspath)
          (env.nonces abspath) gs gs' (drop (length env.flags.dir) abspath) abspath st on_disk
          planned_rel recorded))
