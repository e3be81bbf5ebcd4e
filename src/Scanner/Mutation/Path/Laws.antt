-- ===== src/Scanner/Mutation/Path/Laws.antt =====
-- Where a path leads, before and after a value is put at it.
use aiautotest.Common.{
  ℕ, zero, suc, ◌≤◌, ◌<◌, if◌then◌else◌, ◌≡◌, refl, ap, ◌∙◌, Bool, true, false, Option, none, some,
  List, [], ◌∷◌, arith, length, get_elem?, Text, text_eq, text_eq_iff, text_eq_refl,
}
use aiautotest.Workflow.Json.{
  null, Value, Items, Fields, array, object, nil, cons, end, field, items, get_field, insert_field,
  get_key, get_index,
}
use aiautotest.Scanner.Mutation.Path.{
  PathSegment, key, index, apply_leaf, put_item, resize, child_field, child_item, set_segments,
  parse_path, set_json_path,
}

module _ {N : Type 0} where
  pub get-insert_field :
      (j k : Text) (v : Value N) (fs : Fields N)
      → get_field j (insert_field k v fs) ≡ (if text_eq k j then some v else get_field j fs)
  unfolding get_field insert_field
  get-insert_field j k v end = refl
  get-insert_field j k v (field i w fs) =
      ground (arith, get-insert_field j k v fs, text_eq_iff i k, text_eq_iff i j, text_eq_iff k j)

  get-put_item :
      (i : ℕ) (v : Value N) (vs : Items N)
      → i < length (items vs)
      → get_elem? (items (put_item i v vs)) i ≡ some v
  unfolding put_item
  get-put_item i v nil h = ground (arith, h)
  get-put_item zero v (cons w vs) h = refl
  get-put_item (suc i) v (cons w vs) h = get-put_item i v vs (omega (arith, h))

  length-resize : (n : ℕ) (vs : Items N) → n ≤ length (items (resize n vs))
  unfolding resize
  length-resize zero vs = omega arith
  length-resize (suc n) nil = let rest = length-resize n nil in omega (arith, rest)
  length-resize (suc n) (cons v vs) = let rest = length-resize n vs in omega (arith, rest)

  -- The value behind a path.
  abbrev pub follow : PathSegment → Value N → Option (Value N)
  follow (key k) v = get_key k v
  follow (index i) v = get_index i v

  abbrev pub and_then : Option (Value N) → (Value N → Option (Value N)) → Option (Value N)
  and_then none f = none
  and_then (some v) f = f v

  abbrev pub resolve : List PathSegment → Value N → Option (Value N)
  resolve [] v = some v
  resolve (s ∷ rest) v = and_then (follow s v) (resolve rest)

  get-insert_field_same :
      (k : Text) (v : Value N) (fs : Fields N) → get_field k (insert_field k v fs) ≡ some v
  get-insert_field_same k v fs =
      get-insert_field k k v fs ∙ ap (λ b. if b then some v else get_field k fs) (text_eq_refl k)

  through :
      {found : Option (Value N)} {v : Value N}
      → found ≡ some v
      → (f : Value N → Option (Value N)) → and_then found f ≡ f v
  through e f = ap (λ x. and_then x f) e

  here_key :
      (k : Text) (v : Value N) (fs : Fields N)
      → resolve (key k ∷ []) (object (insert_field k v fs)) ≡ some v
  unfolding get_key
  here_key k v fs = through (get-insert_field_same k v fs) (resolve [])

  here_index :
      (i : ℕ) (v : Value N) (vs : Items N)
      → i < length (items vs)
      → resolve (index i ∷ []) (array (put_item i v vs)) ≡ some v
  unfolding get_index
  here_index i v vs le = through (get-put_item i v vs le) (resolve [])

  get-put_item_past :
      (i : ℕ) (v : Value N) (vs : Items N)
      → length (items vs) ≤ i
      → get_elem? (items (put_item i v vs)) i ≡ none
  unfolding put_item
  get-put_item_past i v nil h = refl
  get-put_item_past zero v (cons w vs) h = absurd (omega (arith, h))
  get-put_item_past (suc i) v (cons w vs) h = get-put_item_past i v vs (omega (arith, h))

  -- How a path goes down a document, in which keys lead through objects and indices through arrays, and
  -- whether a value can be put at its end. A missing key on the way leads to an empty object. An index
  -- beyond the end of its array leads nowhere: as the last segment it has no place, and before
  -- others it leads to a null, which has neither keys nor items.
  pub data Leads : List PathSegment → Value N → Bool → Type 0 where
    at_key : (k : Text) (fs : Fields N) → Leads (key k ∷ []) (object fs) true
    at_index : (i : ℕ) (vs : Items N) → i < length (items vs) → Leads (index i ∷ []) (array vs) true
    past_end :
        (i : ℕ) (vs : Items N) → length (items vs) ≤ i → Leads (index i ∷ []) (array vs) false
    past_null :
        (i : ℕ) (s : PathSegment) (rest : List PathSegment) (vs : Items N)
        → length (items vs) ≤ i
        → Leads (index i ∷ s ∷ rest) (array vs) false
    in_key :
        (k : Text) (s : PathSegment) (rest : List PathSegment) (fs : Fields N) (b : Bool)
        → Leads (s ∷ rest) (child_field k fs) b
        → Leads (key k ∷ s ∷ rest) (object fs) b
    in_index :
        (i : ℕ) (s : PathSegment) (rest : List PathSegment) (vs : Items N) (b : Bool)
        → i < length (items vs)
        → Leads (s ∷ rest) (child_item i vs) b
        → Leads (index i ∷ s ∷ rest) (array vs) b

  -- What a value that was put at a path is read back as.
  abbrev kept : Value N → Bool → Option (Value N)
  kept v true = some v
  kept v false = none

  past_index :
      (i : ℕ) (v : Value N) (vs : Items N)
      → length (items vs) ≤ i
      → resolve (index i ∷ []) (array (put_item i v vs)) ≡ none
  unfolding get_index
  past_index i v vs h = ap (λ x. and_then x (resolve [])) (get-put_item_past i v vs h)

  child_item-past : (i : ℕ) (vs : Items N) → length (items vs) ≤ i → child_item i vs ≡ null
  unfolding child_item
  child_item-past i nil h = refl
  child_item-past zero (cons v vs) h = absurd (omega (arith, h))
  child_item-past (suc i) (cons v vs) h = child_item-past i vs (omega (arith, h))

  null-resolve :
      (v : Value N) (s : PathSegment) (rest : List PathSegment)
      → resolve (s ∷ rest) (set_segments (s ∷ rest) v null) ≡ none
  unfolding set_segments apply_leaf get_key get_index
  null-resolve v (key k) [] = refl
  null-resolve v (index i) [] = refl
  null-resolve v (key k) (t ∷ rest) = refl
  null-resolve v (index i) (t ∷ rest) = refl

  resolve-set_segments :
      (v : Value N) (segments : List PathSegment) (root : Value N) (b : Bool)
      → Leads segments root b
      → resolve segments (set_segments segments v root) ≡ kept v b
  unfolding set_segments apply_leaf get_key get_index
  resolve-set_segments v segments root _ (at_key k fs) = here_key k v fs
  resolve-set_segments v segments root _ (at_index i vs le) = here_index i v vs le
  resolve-set_segments v segments root _ (past_end i vs le) = past_index i v vs le
  resolve-set_segments v segments root _ (past_null i s rest vs le) =
      through
        (get-put_item i (set_segments (s ∷ rest) v (child_item i vs)) (resize (suc i) vs)
          (let long = length-resize (suc i) vs in omega (arith, long)))
        (resolve (s ∷ rest))
      ∙ ap (λ w. resolve (s ∷ rest) (set_segments (s ∷ rest) v w)) (child_item-past i vs le)
      ∙ null-resolve v s rest
  resolve-set_segments v segments root _ (in_key k s rest fs b h) =
      through (get-insert_field_same k (set_segments (s ∷ rest) v (child_field k fs)) fs)
        (resolve (s ∷ rest))
      ∙ resolve-set_segments v (s ∷ rest) (child_field k fs) b h
  resolve-set_segments v segments root _ (in_index i s rest vs b le h) =
      through
        (get-put_item i (set_segments (s ∷ rest) v (child_item i vs)) (resize (suc i) vs)
          (let long = length-resize (suc i) vs in omega (arith, long)))
        (resolve (s ∷ rest))
      ∙ resolve-set_segments v (s ∷ rest) (child_item i vs) b h

  -- Where the keys of a path lead through objects and its indices through arrays (a missing key on the
  -- way leads to an empty object, which is made), a value that is put at the path is what the path
  -- leads to afterwards if each index is in bounds; if an index is beyond the end of its array, be it
  -- the last segment or one on the way, the value is lost and the path leads to nothing.
  pub set_json_path-resolve :
      (root : Value N) (path : Text) (v : Value N) (b : Bool)
      → Leads (parse_path path) root b
      → resolve (parse_path path) (set_json_path root path v) ≡ kept v b
  unfolding set_json_path
  set_json_path-resolve root path v b h = resolve-set_segments v (parse_path path) root b h
