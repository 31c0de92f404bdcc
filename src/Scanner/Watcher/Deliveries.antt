-- ===== src/Scanner/Watcher/Deliveries.antt =====
-- What the handlers of internal/scanner/watcher.go get of the events that come before the timer fires.
use photo_core.Base.{
  ℕ, String, ◌&&◌, List, [], ◌∷◌, ◌++◌, Option, some, none, ◌≡◌, refl, sym, ◌∙◌, ap, ◌==◌, eqb,
  eq_iff, eq_refl, if◌then◌else◌, lookup, lookup-insert, HasKeysOnce, insert-HasKeysOnce, IsRange,
  arith, Option-cases, Bool-cases, inl, inr, append-nil,
}
use photo_core.Scanner.Records.{ExtensionsConfig}
use photo_core.Scanner.Watcher.{
  FileEvent, FsEvent, Surroundings, Watcher, accepted, keep_event, handle_fs_event, add_recursive,
  call_handlers, call_all, process_pending_events, operation_of,
}

unfoldable pub handle_events : (String → String) → List (FsEvent × Surroundings) → Watcher → Watcher
handle_events ext_of [] w = w
handle_events ext_of ((event, around) ∷ events) w =
    handle_events ext_of events (handle_fs_event ext_of event around w)

-- The last event of a path that is kept, or else the one given.
unfoldable pub last_kept :
    (String → String)
    → ExtensionsConfig
    → String
    → Option FileEvent
    → List (FsEvent × Surroundings)
    → Option FileEvent
last_kept ext_of c path last [] = last
last_kept ext_of c path last ((event, around) ∷ events) =
    last_kept ext_of c path
      (elim (accepted ext_of c event around) [
        | none ↦ last
        | some e ↦ if event.name == path then some e else last
      ])
      events

-- One call for each time that the handler was added.
unfoldable pub copies : ℕ → List ℕ → FileEvent → List FileEvent
copies h [] e = []
copies h (g ∷ handlers) e = let rest = copies h handlers e in if eqb g h then e ∷ rest else rest

unfoldable pub copies_of : ℕ → List ℕ → Option FileEvent → List FileEvent
unfolding copies
copies_of h handlers none = []
copies_of h handlers (some e) = copies h handlers e

-- The events of a path that a handler gets.
unfoldable pub calls_for : ℕ → String → List (ℕ × FileEvent) → List FileEvent
calls_for h path [] = []
calls_for h path ((g, e) ∷ calls) =
    let rest = calls_for h path calls in if eqb g h && e.path == path then e ∷ rest else rest

-- The events stand under their paths, once.
pub record IsByPath (w : Watcher) : Type 0 where
  pub once : HasKeysOnce w.pending_events
  pub keyed : (k : String) (e : FileEvent) → lookup k w.pending_events ≡ some e → e.path ≡ k

kept_path :
    (ext_of : String → String) (c : ExtensionsConfig) (event : FsEvent) (around : Surroundings)
    (e : FileEvent)
    → accepted ext_of c event around ≡ some e
    → e.path ≡ event.name
unfolding accepted
kept_path ext_of c event around e h = ground (arith, Option-cases (operation_of event))

keep_event_lem :
    (event : FsEvent) (around : Surroundings) (w : Watcher) (kept : Option FileEvent)
    → ((e : FileEvent) → kept ≡ some e → e.path ≡ event.name)
    → IsByPath w
    → IsByPath (keep_event event around w kept)
      × ((keep_event event around w kept).handlers ≡ w.handlers)
      × ((keep_event event around w kept).extensions ≡ w.extensions)
      × ((k : String)
          → lookup k (keep_event event around w kept).pending_events ≡ elim kept [
            | none ↦ lookup k w.pending_events
            | some e ↦ if event.name == k then some e else lookup k w.pending_events
          ])
unfolding keep_event add_recursive
keep_event_lem event around w none p h = (h, refl, refl, λ k. refl)
keep_event_lem event around w (some e) p h = (
  record {
    once = insert-HasKeysOnce event.name e w.pending_events h.once;
    keyed = λ k x f. ground (
      arith,
      lookup-insert event.name k e w.pending_events,
      eq_iff event.name k,
      p e refl,
      h.keyed k x,
    );
  },
  ground arith,
  ground arith,
  λ k. lookup-insert event.name k e w.pending_events,
)

lookup-handle_events :
    (ext_of : String → String) (events : List (FsEvent × Surroundings)) (w : Watcher)
    → IsByPath w
    → IsByPath (handle_events ext_of events w)
      × ((handle_events ext_of events w).handlers ≡ w.handlers)
      × ((k : String)
          → lookup k (handle_events ext_of events w).pending_events
            ≡ last_kept ext_of w.extensions k (lookup k w.pending_events) events)
unfolding handle_events last_kept handle_fs_event
lookup-handle_events ext_of [] w h = (h, refl, λ k. refl)
lookup-handle_events ext_of ((event, around) ∷ events) w h =
    let kept = accepted ext_of w.extensions event around in
    let (by_path, handlers, extensions, found) =
      keep_event_lem event around w kept (kept_path ext_of w.extensions event around) h in
    let (by_path', handlers', found') =
      lookup-handle_events ext_of events (keep_event event around w kept) by_path in
    (
      by_path',
      handlers' ∙ handlers,
      λ k.
          found' k
          ∙ (ap
                (λ c.
                  last_kept ext_of c k (lookup k (keep_event event around w kept).pending_events)
                    events)
                extensions
              ∙ ap (λ o. last_kept ext_of w.extensions k o events) (found k)),
    )

calls_for-call_handlers :
    (h : ℕ) (path : String) (handlers : List ℕ) (e : FileEvent)
    → calls_for h path (call_handlers handlers e)
      ≡ (if e.path == path then copies h handlers e else [])
unfolding calls_for call_handlers copies
calls_for-call_handlers h path [] e = ground arith
calls_for-call_handlers h path (g ∷ handlers) e =
    let ih = calls_for-call_handlers h path handlers e in
    ground (arith, Bool-cases (eqb g h), Bool-cases (e.path == path))

calls_for-append :
    (h : ℕ) (path : String) (xs ys : List (ℕ × FileEvent))
    → calls_for h path (xs ++ ys) ≡ calls_for h path xs ++ calls_for h path ys
unfolding calls_for
calls_for-append h path [] ys = refl
calls_for-append h path ((g, e) ∷ xs) ys =
    let ih = calls_for-append h path xs ys in
    elim (Bool-cases (eqb g h && e.path == path)) [
      | inl t ↦ rw (ih, t) refl
      | inr f ↦ rw (ih, f) refl
    ]

abbrev IsKeyed : List (String × FileEvent) → Type 0
IsKeyed order = (k : String) (e : FileEvent) → lookup k order ≡ some e → e.path ≡ k

IsKeyed-rest :
    (p : String) (e : FileEvent) (order : List (String × FileEvent))
    → lookup p order ≡ none
    → IsKeyed ((p, e) ∷ order)
    → IsKeyed order
IsKeyed-rest p e order once keyed k x f = ground (arith, eq_iff p k, eq_iff k p, keyed k x)

first_then_rest :
    (h : ℕ) (path : String) (handlers : List ℕ) (p : String) (e : FileEvent)
    (order : List (String × FileEvent))
    → lookup p order ≡ none
    → (if p == path then copies h handlers e else []) ++ copies_of h handlers (lookup path order)
      ≡ copies_of h handlers (if p == path then some e else lookup path order)
unfolding copies_of
first_then_rest h path handlers p e order fresh = elim (Bool-cases (p == path)) [
  | inl t ↦
      let fresh_at : lookup path order ≡ none =
        ap (λ k. lookup k order) (sym ((eq_iff p path).0 t)) ∙ fresh in
      rw (t, fresh_at) (append-nil (copies h handlers e))
  | inr f ↦ rw f refl
]

calls_for-call_all :
    (h : ℕ) (path : String) (handlers : List ℕ) (order : List (String × FileEvent))
    → HasKeysOnce order
    → IsKeyed order
    → calls_for h path (call_all handlers order) ≡ copies_of h handlers (lookup path order)
unfolding call_all calls_for copies_of
calls_for-call_all h path handlers [] once keyed = refl
calls_for-call_all h path handlers ((p, e) ∷ order) (fresh, once) keyed =
    let rest = IsKeyed-rest p e order fresh keyed in
    let ih = calls_for-call_all h path handlers order once rest in
    let same = keyed p e (rw (eq_refl p) refl) in
    let own =
      calls_for-call_handlers h path handlers e
      ∙ ap (λ k. if k == path then copies h handlers e else []) same in
    calls_for-append h path (call_handlers handlers e) (call_all handlers order)
    ∙ rw (own, ih) (first_then_rest h path handlers p e order fresh)

-- When the events of a watcher that has none pending are handled and the timer fires after them, each
-- handler is called, once for each time that it was added, with the last event of a path that was
-- accepted, in whatever order Go ranges over the map; it is not called for a path without such an
-- event, and no event is pending afterwards.
pub handle_events-process_pending_events :
    (ext_of : String → String) (events : List (FsEvent × Surroundings)) (w : Watcher)
    (order : List (String × FileEvent) → List (String × FileEvent)) (h : ℕ) (path : String)
    → IsRange
        (order (handle_events ext_of events w).pending_events)
        (handle_events ext_of events w).pending_events
    → w.pending_events ≡ []
    → (calls_for h path (process_pending_events order (handle_events ext_of events w)).0
        ≡ copies_of h w.handlers (last_kept ext_of w.extensions path none events))
      × ((process_pending_events order (handle_events ext_of events w)).1.pending_events ≡ [])
unfolding process_pending_events
handle_events-process_pending_events ext_of events w order h path range empty =
    let start : IsByPath w = record { once = rw empty tt; keyed = λ k e f. ground arith } in
    let (by_path, handlers, found) = lookup-handle_events ext_of events w start in
    let calls =
      calls_for-call_all h path (handle_events ext_of events w).handlers
        (order (handle_events ext_of events w).pending_events) range.0
        (λ k e f. by_path.keyed k e (sym (range.1 k) ∙ f)) in
    (calls ∙ rw (handlers, range.1 path, found path, empty) refl, refl)
