-- ===== src/Auth/Session/Tables.antt =====
-- internal/api/auth/session: what always holds of the table `refresh_tokens`.
use stash_it_backend.Base.{
  ℕ, ◌≡◌, refl, sym, ◌∙◌, subst, Bool, true, false, not, Bool-cases, inl, inr, List, [], ◌∷◌, map,
  Option, none, some, ◌==◌, if◌then◌else◌, keep, find, update_where, All, All-map, All-keep,
  All-keep_self, All-both, Option-cases, arith, is_some, Unique, Unique-keep, find-none,
  some-injective, All-find,
}
use stash_it_backend.Auth.Session.{
  RefreshToken, Store, session_with, token_with, token_hashed, set_null, insert_token,
}

-- The session of the token with an id.
abbrev pub session_of : ℕ → List RefreshToken → Option ℕ
session_of i [] = none
session_of i (t ∷ ts) = if t.id == i then some t.session_id else session_of i ts

-- A token's successor is a token of the same session.
abbrev pub IsLinked : List RefreshToken → RefreshToken → Type 0
IsLinked ts t = (i : ℕ) → t.replaced_by ≡ some i → session_of i ts ≡ some t.session_id

pub record IsSound (ts : List RefreshToken) : Type 0 where
  pub ids : Unique (λ t. t.id) ts
  pub hashes : Unique (λ t. t.token_hash) ts
  pub linked : All (IsLinked ts) ts

is_some-session_of :
    (i : ℕ) (ts : List RefreshToken) → is_some (token_with i ts) ≡ is_some (session_of i ts)
unfolding find
is_some-session_of i [] = refl
is_some-session_of i (t ∷ ts) = ground (arith, is_some-session_of i ts)

-- A token that stays keeps its successor, and a deletion leaves no reference open.
session_of-keep :
    (gone : ℕ → Bool) (i s : ℕ) (ts : List RefreshToken)
    → session_of i ts ≡ some s
    → gone s ≡ false
    → session_of i (keep (λ t. not (gone t.session_id)) ts) ≡ some s
unfolding keep
session_of-keep gone i s [] h g = cc
session_of-keep gone i s (t ∷ ts) h g = ground (arith, session_of-keep gone i s ts)

pub session_of-update :
    (p : RefreshToken → Bool) (new i : ℕ) (ts : List RefreshToken)
    → session_of i (update_where p (λ t. record t { replaced_by = some new }) ts) ≡ session_of i ts
unfolding update_where
session_of-update p new i [] = refl
session_of-update p new i (t ∷ ts) = ground (arith, session_of-update p new i ts)

session_of-found :
    (p : RefreshToken → Bool) (ts : List RefreshToken) (t : RefreshToken)
    → Unique (λ t. t.id) ts
    → find p ts ≡ some t
    → session_of t.id ts ≡ some t.session_id
unfolding find
session_of-found p [] t u h = cc
session_of-found p (x ∷ ts) t u h = elim (Bool-cases (p x)) [
  | inl e ↦
      subst (λ z. session_of z.id (x ∷ ts) ≡ some z.session_id) (some-injective _ _ (rw e at h))
        (ground arith)
  | inr e ↦ ground (
    arith,
    All-find (λ y. (y.id == x.id) ≡ false) p ts t u.0 (rw e at h),
    session_of-found p ts t u.1 (rw e at h),
  )
]

map_self :
    (f : RefreshToken → RefreshToken) (ts : List RefreshToken)
    → All (λ t. f t ≡ t) ts
    → map f ts ≡ ts
map_self f [] h = refl
map_self f (t ∷ ts) h = rw (h.0, map_self f ts h.1) refl

module _ (gone : ℕ → Bool) (ts : List RefreshToken) (v : IsSound ts) where
  abbrev rest : List RefreshToken
  rest = keep (λ t. not (gone t.session_id)) ts

  IsLinked-keep :
      (t : RefreshToken) → IsLinked ts t → not (gone t.session_id) ≡ true → IsLinked rest t
  IsLinked-keep t h g i e = session_of-keep gone i t.session_id ts (h i e) (ground arith)

  set_null-IsLinked : (t : RefreshToken) → IsLinked rest t → set_null rest t ≡ t
  set_null-IsLinked t h = elim (Option-cases t.replaced_by) [
    | inl e ↦ rw e refl
    | inr (i, e) ↦ rw (e, is_some-session_of i rest, h i e) refl
  ]

  keep-IsLinked : All (IsLinked rest) rest
  keep-IsLinked =
      All-map rest (λ t h. IsLinked-keep t h.0 h.1)
        (All-both _ _ rest (All-keep (IsLinked ts) _ ts v.linked) (All-keep_self _ ts))

  -- No token that stays loses its successor.
  pub map-set_null : map (set_null rest) rest ≡ rest
  map-set_null = map_self _ rest (All-map rest set_null-IsLinked keep-IsLinked)

  pub keep-IsSound : IsSound rest
  keep-IsSound = record {
    ids = Unique-keep _ _ ts v.ids;
    hashes = Unique-keep _ _ ts v.hashes;
    linked = keep-IsLinked;
  }

-- What an insertion found and made.
pub record Inserts (new session hash : ℕ) (st s : Store) (t : RefreshToken) : Type 0 where
  pub fresh_id : is_some (token_with new st.tokens) ≡ false
  pub fresh_hash : is_some (token_hashed hash st.tokens) ≡ false
  pub owned : is_some (session_with session st.sessions) ≡ true
  pub id : t.id ≡ new
  pub session_id : t.session_id ≡ session
  pub token_hash : t.token_hash ≡ hash
  pub replaced_by : t.replaced_by ≡ none
  pub tokens : s.tokens ≡ t ∷ st.tokens
  pub sessions : s.sessions ≡ st.sessions

pub insert_token-Inserts :
    (now new session hash : ℕ) (st s : Store) (t : RefreshToken)
    → insert_token now new session hash st ≡ some (t, s)
    → Inserts new session hash st s t
unfolding insert_token
insert_token-Inserts now new session hash st s t h = record {
  fresh_id = ground arith;
  fresh_hash = ground arith;
  owned = ground arith;
  id = ground arith;
  session_id = ground arith;
  token_hash = ground arith;
  replaced_by = ground arith;
  tokens = ground arith;
  sessions = ground arith;
}

cons-IsLinked :
    (t u : RefreshToken) (ts : List RefreshToken)
    → is_some (session_of t.id ts) ≡ false
    → IsLinked ts u
    → IsLinked (t ∷ ts) u
cons-IsLinked t u ts f h i e = ground (arith, h i e)

pub cons-IsSound :
    (new session hash : ℕ) (st s : Store) (t : RefreshToken)
    → IsSound st.tokens
    → Inserts new session hash st s t
    → IsSound (t ∷ st.tokens)
cons-IsSound new session hash st s t v n = record {
  ids = (rw n.id (find-none _ st.tokens n.fresh_id), v.ids);
  hashes = (rw n.token_hash (find-none _ st.tokens n.fresh_hash), v.hashes);
  linked = (
    (λ i e. ground arith),
    All-map st.tokens
        (λ u.
          cons-IsLinked t u st.tokens
            (rw n.id (sym (is_some-session_of new st.tokens) ∙ n.fresh_id)))
        v.linked,
  );
}
