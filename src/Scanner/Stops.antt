-- ===== src/Scanner/Stops.antt =====
-- What Stop does to a scan.
use photo_core.Base.{
  ℕ, ◌+◌, String, Bool, true, false, List, [], ◌∷◌, Option, some, none, ◌≡◌, refl, ◌∙◌, eqb, ltb,
  any, arith, Option-cases, Bool-cases, inl, inr, if◌then◌else◌,
}
use mathlib.Core.Path.{subst}
use photo_core.Storage.Db.{Env, Store}
use photo_core.Scanner.Records.{Files, ScanProgress, Visit}
use photo_core.Scanner.Files.{scan_file}
use photo_core.Scanner.Walks.{
  Scanner, Event, starts, closes, renews, looks, visits, ends, start, close_channel, renew_channel,
  look, locked, is_stopped, after_file, visit_file, finish, step, run, new_scanner,
}

-- No channel is newer than that of the field, which is closed exactly while a Stop is under way.
unfoldable pub IsRenewed : (E : Env) → Scanner E → Type 0
IsRenewed E sc =
    (any (ltb sc.stop_chan) sc.closed ≡ false) × (any (eqb sc.stop_chan) sc.closed ≡ sc.stopping)

next_newer : (n : ℕ) (l : List ℕ) → any (ltb n) l ≡ false → any (ltb (n + 1)) l ≡ false
next_newer n [] h = refl
next_newer n (k ∷ l) h = ground (arith, next_newer n l)

next_open : (n : ℕ) (l : List ℕ) → any (ltb n) l ≡ false → any (eqb (n + 1)) l ≡ false
next_open n [] h = refl
next_open n (k ∷ l) h = ground (arith, next_open n l)

module _ (E : Env) (F : Files) (extensions : List (String × String)) where
  either-IsRenewed :
      (b : Bool) (x y : Scanner E)
      → (b ≡ true → IsRenewed E x)
      → IsRenewed E y
      → IsRenewed E (if b then x else y)
  either-IsRenewed true x y h k = h refl
  either-IsRenewed false x y h k = k

  close_channel-IsRenewed :
      (sc : Scanner E) → IsRenewed E sc → IsRenewed E (close_channel E F extensions sc)
  unfolding IsRenewed close_channel
  close_channel-IsRenewed sc (newer, same) =
      either-IsRenewed sc.scanning
        (record sc { closed = sc.stop_chan ∷ sc.closed; stopping = true }) sc
        (λ e. (ground (arith, newer), ground arith)) (newer, same)

  renew_channel-IsRenewed :
      (sc : Scanner E) → IsRenewed E sc → IsRenewed E (renew_channel E F extensions sc)
  unfolding IsRenewed renew_channel
  renew_channel-IsRenewed sc (newer, same) =
      either-IsRenewed sc.stopping (record sc { stop_chan = sc.stop_chan + 1; stopping = false }) sc
        (λ e. (next_newer sc.stop_chan sc.closed newer, next_open sc.stop_chan sc.closed newer))
        (newer, same)

  start-IsRenewed :
      (now : ℕ) (sc : Scanner E) → IsRenewed E sc → IsRenewed E (start E F extensions now sc).1
  unfolding IsRenewed start
  start-IsRenewed now sc h = elim (Bool-cases sc.scanning) [
    | inl e ↦ ground arith
    | inr e ↦ ground arith
  ]

  locked-IsRenewed :
      (sc sc' : Scanner E)
      → IsRenewed E sc
      → IsRenewed E sc'
      → IsRenewed E (locked E F extensions sc sc')
  unfolding locked
  locked-IsRenewed sc sc' h h' = either-IsRenewed sc.stopping sc sc' (λ e. h) h'

  AllRenewed : Option (Scanner E) → Type 0
  AllRenewed none = Unit {0}
  AllRenewed (some sc) = IsRenewed E sc

  after_file-AllRenewed :
      (sc : Scanner E) (r : Option (ScanProgress × Store E))
      → IsRenewed E sc
      → AllRenewed (after_file E F extensions sc r)
  unfolding after_file AllRenewed IsRenewed
  after_file-AllRenewed sc none h = tt
  after_file-AllRenewed sc (some (p, s)) h = h

  visit_file-AllRenewed :
      (abs_path : String) (v : Visit) (sc : Scanner E)
      → IsRenewed E sc
      → AllRenewed (visit_file E F extensions abs_path v sc)
  unfolding visit_file AllRenewed
  visit_file-AllRenewed abs_path v sc h =
      let r = scan_file E F extensions abs_path v (sc.progress, sc.store) in
      elim (Bool-cases (is_stopped E F extensions sc)) [
        | inl e ↦ rw e h
        | inr e ↦ rw e (after_file-AllRenewed sc r h)
      ]

  step-AllRenewed :
      (e : Event) (sc : Scanner E) → IsRenewed E sc → AllRenewed (step E F extensions e sc)
  unfolding step AllRenewed look finish IsRenewed
  step-AllRenewed (starts now) sc h =
      locked-IsRenewed sc (start E F extensions now sc).1 h (start-IsRenewed now sc h)
  step-AllRenewed closes sc h =
      locked-IsRenewed sc (close_channel E F extensions sc) h (close_channel-IsRenewed sc h)
  step-AllRenewed renews sc h = renew_channel-IsRenewed sc h
  step-AllRenewed looks sc h = h
  step-AllRenewed (visits abs_path v) sc h = visit_file-AllRenewed abs_path v sc h
  step-AllRenewed ends sc h = locked-IsRenewed sc (finish E F extensions sc) h h

  run-AllRenewed :
      (events : List Event) (sc : Scanner E)
      → IsRenewed E sc
      → AllRenewed (run E F extensions events sc)
  unfolding run AllRenewed
  run-AllRenewed [] sc h = h
  run-AllRenewed (e ∷ events) sc h = elim (Option-cases (step E F extensions e sc)) [
    | inl f ↦ rw (f, run) tt
    | inr (next, f) ↦
        rw (f, run) (run-AllRenewed events next (subst AllRenewed f (step-AllRenewed e sc h)))
  ]

  visit_file-open :
      (abs_path : String) (v : Visit) (sc : Scanner E)
      → is_stopped E F extensions sc ≡ false
      → visit_file E F extensions abs_path v sc
        ≡ after_file E F extensions sc (scan_file E F extensions abs_path v (sc.progress, sc.store))
  unfolding visit_file
  visit_file-open abs_path v sc h = rw h refl

  run_one :
      (o : Option (Scanner E)) → elim o [ none ↦ none | some sc ↦ run E F extensions [] sc ] ≡ o
  unfolding run
  run_one none = refl
  run_one (some sc) = refl

  -- However often Stop was called in a run from a new scanner: where no Stop stands between its
  -- close and its make, a call of the walk's function whose select reads the field and receives
  -- with nothing in between scans its file, as if Stop had never been called.
  pub run-after_file :
      (events : List Event) (s : Store E) (sc : Scanner E) (abs_path : String) (v : Visit)
      → run E F extensions events (new_scanner E F extensions s) ≡ some sc
      → sc.stopping ≡ false
      → run E F extensions (looks ∷ visits abs_path v ∷ []) sc
        ≡ after_file E F extensions
            (record sc { looked = sc.stop_chan })
            (scan_file E F extensions abs_path v (sc.progress, sc.store))
  unfolding AllRenewed IsRenewed new_scanner run step look is_stopped
  run-after_file events s sc abs_path v h free =
      let renewed : IsRenewed E sc =
        subst AllRenewed h (run-AllRenewed events (new_scanner E F extensions s) (refl, refl)) in
      run_one (visit_file E F extensions abs_path v (record sc { looked = sc.stop_chan }))
      ∙ visit_file-open abs_path v (record sc { looked = sc.stop_chan }) (renewed.1 ∙ free)
