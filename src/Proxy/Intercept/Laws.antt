-- ===== src/Proxy/Intercept/Laws.antt =====
-- What is held, what is listed, and who is answered.
use aiautotest.Common.{
  ◌∙◌, suc, text_eq_refl, Option-cases, inl, inr, sym, ap, ℕ, ◌<◌, ◌==◌, Bool, true, false, not,
  ◌||◌, Option, none, some, List, [], ◌∷◌, ◌++◌, Text, text_eq, text_eq_iff, filter, find, any,
  lookup, insert, remove, lookup-insert, lookup-remove, arith, ◌≡◌, refl, is_some, if◌then◌else◌,
}
use aiautotest.Proxy.Intercept.{
  register, show, InterceptController, InterceptEntry, InterceptEdit, InterceptDecision, dropped,
  forwarded, Pending, init, enqueue, decide, decide_found, forward, drop_item, clear_all, send,
  send_all, drop_old, get,
}

-- What the UI and the proxy tasks do to the two collections, one call at a time.
pub data Operation : Type 0 where
  enqueues : InterceptEntry → Operation
  forwards : Text → Option InterceptEdit → Operation
  drops : Text → Operation
  clears : Operation

unfoldable pub step : Operation → InterceptController → InterceptController
step (enqueues entry) s = (enqueue entry s).0
step (forwards id edit) s = (forward id edit s).0
step (drops id) s = (drop_item id s).0
step clears s = clear_all s

unfoldable pub run : List Operation → InterceptController → InterceptController
run [] s = s
run (o ∷ ops) s = run ops (step o s)

-- The channel is held by an entry; or has an answer.
abbrev holds : ℕ → Pending → Bool
holds c p = elim p.tx [ some d ↦ d == c | none ↦ false ]

abbrev pub is_held : ℕ → List (Text × Pending) → Bool
is_held c m = any (λ e. holds c e.1) m

abbrev pub is_answered : ℕ → List (ℕ × InterceptDecision) → Bool
is_answered c answers = any (λ a. a.0 == c) answers

abbrev IsDistinct : List (Text × Pending) → Type 0
IsDistinct [] = Unit
IsDistinct ((id, p) ∷ m) = (is_some (lookup id m) ≡ false) × IsDistinct m

pub record IsValid (s : InterceptController) : Type 0 where
  pub distinct : IsDistinct s.pending
  pub listed : (id : Text) → is_some (get id s) ≡ is_some (lookup id s.pending)
  pub served : (c : ℕ) → c < s.channels → (is_held c s.pending || is_answered c s.answers) ≡ true

any-append :
    {A : Type 0} (p : A → Bool) (xs ys : List A) → any p (xs ++ ys) ≡ (any p xs || any p ys)
any-append p [] ys = refl
any-append p (x ∷ xs) ys = ground (arith, any-append p xs ys)

insert-IsDistinct :
    (id : Text) (p : Pending) (m : List (Text × Pending))
    → IsDistinct m
    → IsDistinct (insert id p m)
unfolding insert lookup
insert-IsDistinct id p [] d = (refl, tt)
insert-IsDistinct id p ((j, q) ∷ m) d =
    ground
      (arith, text_eq_iff j id, text_eq_iff id j, insert-IsDistinct id p m, lookup-insert id j p m)

remove-IsDistinct :
    (id : Text) (m : List (Text × Pending)) → IsDistinct m → IsDistinct (remove id m)
unfolding remove lookup
remove-IsDistinct id [] d = tt
remove-IsDistinct id ((j, q) ∷ m) d =
    ground (arith, text_eq_iff j id, remove-IsDistinct id m, lookup-remove id j m)

-- An entry that goes out of the map under its id has its channel answered, by any decision.
insert-held :
    (c : ℕ) (id : Text) (p : Pending) (m : List (Text × Pending))
    → is_held c m ≡ true
    → (is_held c (insert id p m) || is_answered c (drop_old (lookup id m))) ≡ true
unfolding insert lookup drop_old send
insert-held c id p [] h = ground (arith, h)
insert-held c id p ((j, q) ∷ m) h = ground (arith, insert-held c id p m)

new-held :
    (c : ℕ) (id : Text) (p : Pending) (m : List (Text × Pending))
    → holds c p ≡ true
    → is_held c (insert id p m) ≡ true
unfolding insert
new-held c id p [] h = ground (arith, h)
new-held c id p ((j, q) ∷ m) h = ground (arith, h, new-held c id p m)

find-filter :
    (id j : Text) (queue : List InterceptEntry)
    → is_some (find (λ e. text_eq e.id j) (filter (λ e. not (text_eq e.id id)) queue))
      ≡ (if text_eq id j then false else is_some (find (λ e. text_eq e.id j) queue))
find-filter id j [] = ground arith
find-filter id j (e ∷ queue) =
    ground
      (arith, find-filter id j queue, text_eq_iff e.id id, text_eq_iff e.id j, text_eq_iff id j)

find-append :
    (j : Text) (queue : List InterceptEntry) (entry : InterceptEntry)
    → is_some (find (λ e. text_eq e.id j) (queue ++ entry ∷ []))
      ≡ (is_some (find (λ e. text_eq e.id j) queue) || text_eq entry.id j)
find-append j [] entry = ground arith
find-append j (e ∷ queue) entry = ground (arith, find-append j queue entry)

remove-absent :
    (id : Text) (m : List (Text × Pending)) → is_some (lookup id m) ≡ false → remove id m ≡ m
unfolding remove lookup
remove-absent id [] h = refl
remove-absent id ((j, q) ∷ m) h = ground (arith, h, remove-absent id m)

-- The entry that a decision takes out has its channel answered by the decision.
remove-held :
    (c : ℕ) (id : Text) (p : Pending) (d : InterceptDecision) (m : List (Text × Pending))
    → IsDistinct m
    → lookup id m ≡ some p
    → is_held c m ≡ true
    → (is_held c (remove id m) || is_answered c (send d p)) ≡ true
unfolding remove lookup send
remove-held c id p d [] u e h = ground (arith, h)
remove-held c id p d ((j, q) ∷ m) u e h =
    ground (arith, u, e, h, text_eq_iff j id, remove-absent id m, remove-held c id p d m)

send_all-answered :
    (c : ℕ) (d : InterceptDecision) (m : List (Text × Pending))
    → is_held c m ≡ true
    → is_answered c (send_all d m) ≡ true
unfolding send_all send
send_all-answered c d [] h = ground (arith, h)
send_all-answered c d ((id, p) ∷ m) h =
    ground (arith, h, send_all-answered c d m, any-append (λ a. a.0 == c) (send d p) (send_all d m))

opened : ℕ → Pending
opened c = record { tx = some c }

enqueue-served :
    (entry : InterceptEntry) (s : InterceptController) (c : ℕ)
    → c < suc s.channels
    → (c < s.channels → (is_held c s.pending || is_answered c s.answers) ≡ true)
    → (is_held c (insert entry.id (opened s.channels) s.pending)
        || is_answered c (s.answers ++ drop_old (lookup entry.id s.pending)))
      ≡ true
unfolding opened
enqueue-served entry s c h served =
    let p = opened s.channels in
    let answers = any-append (λ a. a.0 == c) s.answers (drop_old (lookup entry.id s.pending)) in
    ground (
      arith,
      h,
      served,
      answers,
      insert-held c entry.id p s.pending,
      new-held c entry.id p s.pending,
    )

enqueue-IsValid :
    (entry : InterceptEntry) (s : InterceptController) → IsValid s → IsValid (enqueue entry s).0
unfolding enqueue register show get opened
enqueue-IsValid entry s v =
    let p = opened s.channels in
    record {
      distinct = insert-IsDistinct entry.id p s.pending v.distinct;
      listed = λ id.
          ground (
            arith,
            v.listed id,
            find-append id s.queue entry,
            lookup-insert entry.id id p s.pending,
          );
      served = λ c h. enqueue-served entry s c h (v.served c);
    }

decide-served :
    (id : Text) (d : InterceptDecision) (p : Pending) (s : InterceptController) (c : ℕ)
    → IsDistinct s.pending
    → lookup id s.pending ≡ some p
    → (is_held c s.pending || is_answered c s.answers) ≡ true
    → (is_held c (remove id s.pending) || is_answered c (s.answers ++ send d p)) ≡ true
decide-served id d p s c u e served =
    let answers = any-append (λ a. a.0 == c) s.answers (send d p) in
    ground (arith, served, answers, remove-held c id p d s.pending u e)

decide-IsValid :
    (id : Text) (d : InterceptDecision) (s : InterceptController)
    → IsValid s
    → IsValid (decide id d s).0
unfolding decide decide_found get
decide-IsValid id d s v = elim (Option-cases (lookup id s.pending)) [
  | inl e ↦ rw (e, decide_found) v
  | inr (p, e) ↦
      rw (e, decide_found)
        (record {
          distinct = remove-IsDistinct id s.pending v.distinct;
          listed = λ j.
              ground (arith, v.listed j, find-filter id j s.queue, lookup-remove id j s.pending);
          served = λ c h. decide-served id d p s c v.distinct e (v.served c h);
        })
]

clear_all-IsValid : (s : InterceptController) → IsValid s → IsValid (clear_all s)
unfolding clear_all get lookup
clear_all-IsValid s v = record {
  distinct = tt;
  listed = λ id. refl;
  served = λ c h. ground (
    arith,
    v.served c h,
    send_all-answered c dropped s.pending,
    any-append (λ a. a.0 == c) s.answers (send_all dropped s.pending),
  );
}

step-IsValid : (o : Operation) (s : InterceptController) → IsValid s → IsValid (step o s)
unfolding step forward drop_item
step-IsValid (enqueues entry) s v = enqueue-IsValid entry s v
step-IsValid (forwards id edit) s v = decide-IsValid id (forwarded edit) s v
step-IsValid (drops id) s v = decide-IsValid id dropped s v
step-IsValid clears s v = clear_all-IsValid s v

-- From a state in which this holds, whatever the UI and the tasks call one after the other: the map's
-- ids are distinct, an item is listed under an id exactly when a task is held under it, and the channel
-- of each task that ever asked is held or has an answer. The ids of the items may repeat.
pub run-held : (ops : List Operation) (s : InterceptController) → IsValid s → IsValid (run ops s)
unfolding run
run-held [] s v = v
run-held (o ∷ ops) s v = run-held ops (step o s) (step-IsValid o s v)

pub init-IsValid : IsValid init
unfolding init get lookup
init-IsValid = record { distinct = tt; listed = λ id. refl; served = λ c h. ground (arith, h) }

-- After `clear_all` no task is left without an answer, whatever was called before on a new controller.
pub clear_all-answers :
    (ops : List Operation) (c : ℕ)
    → c < (run ops init).channels
    → is_answered c (clear_all (run ops init)).answers ≡ true
unfolding clear_all
clear_all-answers ops c h =
    let v = clear_all-IsValid (run ops init) (run-held ops init init-IsValid) in v.served c h

decide-found :
    (id : Text) (d : InterceptDecision) (s : InterceptController)
    → (decide id d s).1 ≡ is_some (lookup id s.pending)
unfolding decide decide_found
decide-found id d s = elim (Option-cases (lookup id s.pending)) [
  | inl e ↦ rw (e, decide_found) refl
  | inr (p, e) ↦ rw (e, decide_found) refl
]

decide-gone :
    (id : Text) (d : InterceptDecision) (s : InterceptController)
    → IsValid s
    → is_some (get id (decide id d s).0) ≡ false
unfolding decide decide_found get
decide-gone id d s v = elim (Option-cases (lookup id s.pending)) [
  | inl e ↦ rw (e, decide_found) (v.listed id ∙ ap is_some e)
  | inr (p, e) ↦ rw (e, decide_found) (find-filter id id s.queue ∙ rw (text_eq_refl id) refl)
]

-- In every state that a new controller reaches, `forward` and `drop_item` succeed on the same ids,
-- those that `get` finds; after a `forward`, `get` finds nothing under its id and `drop_item` fails.
pub decision-once :
    (ops : List Operation) (id : Text) (edit : Option InterceptEdit)
    → let s = run ops init in
      ((forward id edit s).1 ≡ is_some (get id s))
      × (((drop_item id s).1 ≡ is_some (get id s))
          × ((is_some (get id (forward id edit s).0) ≡ false)
              × ((drop_item id (forward id edit s).0).1 ≡ false)))
unfolding forward drop_item
decision-once ops id edit =
    let s = run ops init in
    let v = run-held ops init init-IsValid in
    let s' = (decide id (forwarded edit) s).0 in
    let v' = decide-IsValid id (forwarded edit) s v in
    let gone = decide-gone id (forwarded edit) s v in
    let again = decide-found id dropped s' ∙ sym (v'.listed id) ∙ gone in
    (
      decide-found id (forwarded edit) s ∙ sym (v.listed id),
      (decide-found id dropped s ∙ sym (v.listed id), (gone, again)),
    )
