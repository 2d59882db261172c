-- ===== src/Collections/Facts.antt =====
-- internal/api/collection/queries.sql: the invariant of the tables, and the statements against it.
use stash_it_backend.Base.{
  ℕ, ◌≡◌, ◌≤◌, refl, sym, subst, arith, Bool, true, false, not, ◌&&◌, List, [], ◌∷◌, All, All-both,
  All-map, All-update, All-keep, Unique, Unique-update, Unique-keep, ◌==◌, ==_iff, Option, none,
  some, Option-cases, Bool-cases, inl, inr, find, find-none, find-cons, count-of_find, count_where,
  keep, update_where, is_some, ok,
}
use stash_it_backend.Base.Text.{Text, text_eq, text_eq_sound}
use stash_it_backend.Worker.Organization.{Collection, SavedItem, Store, is_item_of, named}
use stash_it_backend.Collections.{
  CollectionError, is_unsorted, is_collection_of, is_filed_in, lock_item, get_collection,
  create_user_collection, move_item, move_items_to, delete_items_in, delete_row,
}

-- The collection that an item is filed in, of the same user.
abbrev pub has_collection : List Collection → SavedItem → Bool
has_collection cs x = is_some (find (is_collection_of x.collection_id x.user_id) cs)

abbrev pub is_named : (Text → Text) → ℕ → Text → Collection → Bool
is_named fold user folded c = (c.user_id == user) && text_eq (fold c.name) folded

pub record Sound (fold : Text → Text) (xs : List SavedItem) (cs : List Collection) : Type 0 where
  pub item_ids : Unique (λ x. x.id) xs
  pub collection_ids : Unique (λ c. c.id) cs
  pub filed : All (λ x. has_collection cs x ≡ true) xs
  pub names : (user : ℕ) (folded : Text) → count_where (is_named fold user folded) cs ≤ 1

-- Items and collections are named by one id each, every item is filed in a collection of its own
-- user, and no user has two collections of one name.
abbrev pub IsSound : (Text → Text) → Store → Type 0
IsSound fold st = Sound fold st.items st.collections

abbrev pub has_unsorted : ℕ → Store → Bool
has_unsorted user st = is_some (find (λ c. (c.user_id == user) && is_unsorted c) st.collections)

-- No Unsorted collection has the id.
abbrev pub is_plain : ℕ → Store → Bool
is_plain i st = not (is_some (find (λ c. (c.id == i) && is_unsorted c) st.collections))

-- A later state: it is sound, no user has lost his Unsorted collection, and no id of another
-- collection has become that of one.
abbrev pub Follows : (Text → Text) → Store → Store → Type 0
Follows fold st s =
    IsSound fold s
    × ((user : ℕ) → has_unsorted user st ≡ true → has_unsorted user s ≡ true)
    × ((i : ℕ) → is_plain i st ≡ true → is_plain i s ≡ true)

abbrev pub Follows_refl : (fold : Text → Text) (st : Store) → IsSound fold st → Follows fold st st
Follows_refl fold st sound = (sound, (λ u h. h), (λ i h. h))

pub Follows_trans :
    (fold : Text → Text) (st s t : Store) → Follows fold st s → Follows fold s t → Follows fold st t
Follows_trans fold st s t a b = (b.0, (λ u h. b.1 u (a.1 u h)), (λ i h. b.2 i (a.2 i h)))

find-keep :
    (p q : Collection → Bool) (cs : List Collection)
    → All (λ c. p c ≡ true → q c ≡ true) cs
    → is_some (find p cs) ≡ true
    → is_some (find p (keep q cs)) ≡ true
unfolding find keep
find-keep p q [] h e = cc
find-keep p q (c ∷ cs) h e = ground (arith, h.0, find-keep p q cs h.1)

keep-find :
    (p q : Collection → Bool) (cs : List Collection)
    → is_some (find p (keep q cs)) ≡ true
    → is_some (find p cs) ≡ true
unfolding find keep
keep-find p q [] e = cc
keep-find p q (c ∷ cs) e = ground (arith, keep-find p q cs)

count_where-keep :
    (p q : Collection → Bool) (cs : List Collection) → count_where p (keep q cs) ≤ count_where p cs
unfolding count_where keep
count_where-keep p q [] = omega arith
count_where-keep p q (c ∷ cs) = ground (arith, count_where-keep p q cs)

one_more_name :
    (fold : Text → Text) (c : Collection) (cs : List Collection)
    → is_some (find (named fold c.user_id c.name) cs) ≡ false
    → ((user : ℕ) (folded : Text) → count_where (is_named fold user folded) cs ≤ 1)
    → (user : ℕ) (folded : Text) → count_where (is_named fold user folded) (c ∷ cs) ≤ 1
unfolding count_where
one_more_name fold c cs free h user folded = elim (Bool-cases (is_named fold user folded c)) [
  | inr other ↦ ground (arith, other, h user folded)
  | inl same ↦
      let none_yet = count-of_find (named fold c.user_id c.name) cs free in
      let of_user : c.user_id ≡ user = (==_iff c.user_id user).0 (ground arith) in
      let of_name : fold c.name ≡ folded = text_eq_sound (fold c.name) folded (ground arith) in
      let none_here : count_where (is_named fold user folded) cs ≡ 0 =
        subst (λ u. count_where (is_named fold u folded) cs ≡ 0) of_user
          (subst (λ n. count_where (is_named fold c.user_id n) cs ≡ 0) of_name none_yet) in
      ground (arith, none_here)
]

module _ (fold : Text → Text) (s : Store) (v : IsSound fold s) where
  pub items-Follows :
      (xs : List SavedItem)
      → Unique (λ x. x.id) xs
      → All (λ x. has_collection s.collections x ≡ true) xs
      → Follows fold s (record s { items = xs })
  items-Follows xs ids filed = (
    record { item_ids = ids; collection_ids = v.collection_ids; filed = filed; names = v.names },
    (λ u h. h),
    (λ i h. h),
  )

  -- Items of the user that are moved to a collection of the user.
  moved-Follows :
      (p : SavedItem → Bool) (user target : ℕ)
      → ((x : SavedItem) → p x ≡ true → x.user_id ≡ user)
      → ((x : SavedItem)
          → find p s.items ≡ some x
          → is_some (find (is_collection_of target user) s.collections) ≡ true)
      → Follows fold s
          (record s { items = update_where p (λ y. record y { collection_id = target }) s.items })
  moved-Follows p user target owner there = elim (Option-cases (find p s.items)) [
    | inr (x, e) ↦ items-Follows _ (Unique-update _ p _ s.items (λ x. refl) v.item_ids) (
        All-update _ _ p _ s.items
          (λ y g _.
            subst (λ u. is_some (find (is_collection_of target u) s.collections) ≡ true)
              (sym (owner y g)) (there x e))
          (λ y _ h. h) v.filed)
    | inl e ↦ items-Follows _ (Unique-update _ p _ s.items (λ x. refl) v.item_ids) (
        All-update _ _ p _ s.items (λ y g h. absurd (both h.0 g)) (λ y _ h. h.1)
          (All-both (λ y. p y ≡ false) _ s.items (find-none p s.items (rw e refl)) v.filed))
  ]
    where
      both : {b : Bool} → b ≡ false → b ≡ true → ⊥
      both f t = cc

  pub lock_item-Follows :
      (i user : ℕ) (x : SavedItem) (t : Store) → lock_item i user s ≡ ok (x, t) → Follows fold s t
  unfolding lock_item
  lock_item-Follows i user x t e =
      let same : t ≡ s = ground arith in subst (Follows fold s) (sym same) (Follows_refl fold s v)

  pub get_collection-Follows :
      (i user : ℕ) (m : CollectionError) (c : Collection) (t : Store)
      → get_collection i user m s ≡ ok (c, t)
      → Follows fold s t
  unfolding get_collection
  get_collection-Follows i user m c t e =
      let same : t ≡ s = ground arith in subst (Follows fold s) (sym same) (Follows_refl fold s v)

  pub create_user_collection-Follows :
      (new user : ℕ) (name : Text) (c : Option Collection) (t : Store)
      → create_user_collection fold new user name s ≡ ok (c, t)
      → Follows fold s t
  unfolding create_user_collection find
  create_user_collection-Follows new user name none t e =
      let same : t ≡ s = ground arith in subst (Follows fold s) (sym same) (Follows_refl fold s v)
  create_user_collection-Follows new user name (some c) t e =
      let same : t ≡ record s { collections = c ∷ s.collections } = ground arith in
      let plain : is_unsorted c ≡ false = ground arith in
      subst (Follows fold s) (sym same) (
        record {
          item_ids = v.item_ids;
          collection_ids =
              (find-none (λ x. x.id == c.id) s.collections (ground arith), v.collection_ids);
          filed = All-map s.items (λ x h. find-cons _ c s.collections h) v.filed;
          names = one_more_name fold c s.collections (ground arith) v.names;
        },
        (λ u h. find-cons _ c s.collections h),
        (λ i h. ground (arith, plain)),
      )

  pub move_item-Follows :
      (c i user : ℕ) (x : SavedItem) (t : Store)
      → move_item c i user s ≡ ok (x, t)
      → Follows fold s t
  unfolding move_item
  move_item-Follows c i user x t e =
      let same : t ≡ record s {
        items = update_where (is_item_of i user) (λ y. record y { collection_id = c }) s.items;
      } =
        ground arith in
      subst (Follows fold s) (sym same) (
        moved-Follows (is_item_of i user) user c (λ y g. (==_iff y.user_id user).0 (ground arith))
          (λ y g. ground arith))

  pub move_items_to-Follows :
      (target source user : ℕ) (x : Unit {0}) (t : Store)
      → move_items_to target source user s ≡ ok (x, t)
      → Follows fold s t
  unfolding move_items_to
  move_items_to-Follows target source user x t e =
      let same : t ≡ record s {
        items =
            update_where (is_filed_in source user) (λ y. record y { collection_id = target })
              s.items;
      } =
        ground arith in
      subst (Follows fold s) (sym same) (
        moved-Follows (is_filed_in source user) user target
          (λ y g. (==_iff y.user_id user).0 (ground arith)) (λ y g. ground arith))

  pub delete_items_in-Follows :
      (source user : ℕ) (x : Unit {0}) (t : Store)
      → delete_items_in source user s ≡ ok (x, t)
      → Follows fold s t
  unfolding delete_items_in
  delete_items_in-Follows source user x t e =
      let same : t ≡ record s { items = keep (λ x. not (is_filed_in source user x)) s.items } =
        ground arith in
      subst (Follows fold s) (sym same)
        (items-Follows _ (Unique-keep _ _ s.items v.item_ids) (All-keep _ _ s.items v.filed))

  -- A collection that is not Unsorted and that no item is filed in can go.
  pub delete_row-Follows :
      (i user : ℕ) (x : Unit {0}) (t : Store)
      → is_plain i s ≡ true
      → delete_row i user s ≡ ok (x, t)
      → Follows fold s t
  unfolding delete_row
  delete_row-Follows i user x t plain e =
      let q = λ (c : Collection). not (is_collection_of i user c) in
      let same : t ≡ record s { collections = keep q s.collections } = ground arith in
      let unused = find-none (is_filed_in i user) s.items (ground arith) in
      let kept_plain = find-none (λ c. (c.id == i) && is_unsorted c) s.collections (ground arith) in
      subst (Follows fold s) (sym same) (
        record {
          item_ids = v.item_ids;
          collection_ids = Unique-keep _ q s.collections v.collection_ids;
          filed =
              All-map s.items
                (λ x h.
                  find-keep _ q s.collections
                    (All-map s.collections (λ c _ k. ground (arith, h.0)) kept_plain) h.1)
                (All-both (λ x. is_filed_in i user x ≡ false) _ s.items unused v.filed);
          names = λ u n.
              omega (arith, count_where-keep (is_named fold u n) q s.collections, v.names u n);
        },
        (λ u h.
            find-keep _ q s.collections
              (All-map s.collections (λ c g k. ground (arith, g)) kept_plain) h),
        (λ j h. ground (arith, keep-find (λ c. (c.id == j) && is_unsorted c) q s.collections)),
      )
