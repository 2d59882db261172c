-- ===== src/Worker/Enrichment/Effects.antt =====
-- internal/worker/enrichment: what a task may change and what it schedules.
use stash_it_backend.Base.{
  ℕ, ◌≡◌, refl, ap, ◌∙◌, inl, inr, true, not, Bool-cases, List, [], ◌∷◌, map, none, some,
  Option-cases, ◌==◌, Result, ok, err, find, update_where, keep, some-injective,
}
use stash_it_backend.Base.Text.{Text}
use stash_it_backend.Worker.Enrichment.{
  SavedItemRow, StatementReply, answered, refused, lost, WorkerError, saved_item_not_found,
  update_row,
}

-- What enrichment never writes: the id, the owner, the URL and the collection.
abbrev pub frame : SavedItemRow → ℕ × ℕ × Text × ℕ
frame x = (x.id, x.user_id, x.url, x.collection_id)

abbrev pub others : ℕ → List SavedItemRow → List SavedItemRow
others i = keep (λ x. not (x.id == i))

ok-injective :
    (x y : SavedItemRow) → ◌≡◌ {A = Result WorkerError SavedItemRow} (ok x) (ok y) → x ≡ y
ok-injective x y h = cc

module _ (i : ℕ) (f : SavedItemRow → SavedItemRow)
    (same : (x : SavedItemRow) → frame (f x) ≡ frame x) where
  same_id : (x : SavedItemRow) → (f x).id ≡ x.id
  same_id x = ap (λ z. z.0) (same x)

  update-others :
      (rows : List SavedItemRow) → others i (update_where (λ x. x.id == i) f rows) ≡ others i rows
  unfolding keep update_where
  update-others [] = refl
  update-others (x ∷ rows) = elim (Bool-cases (x.id == i)) [
    | inl e ↦ rw (e, same_id x, e) (update-others rows)
    | inr e ↦ rw (e, e, update-others rows) refl
  ]

  update-frame :
      (rows : List SavedItemRow) → map frame (update_where (λ x. x.id == i) f rows) ≡ map frame rows
  unfolding update_where
  update-frame [] = refl
  update-frame (x ∷ rows) = elim (Bool-cases (x.id == i)) [
    | inl e ↦ rw (e, update-frame rows, same x) refl
    | inr e ↦ rw (e, update-frame rows) refl
  ]

  find-update :
      (rows : List SavedItemRow) (x : SavedItemRow)
      → find (λ x. x.id == i) rows ≡ some x
      → find (λ x. x.id == i) (update_where (λ x. x.id == i) f rows) ≡ some (f x)
  unfolding find update_where
  find-update [] x h = cc
  find-update (y ∷ rows) x h = elim (Bool-cases (y.id == i)) [
    | inl e ↦
        let e' : ((f y).id == i) ≡ true = ap (λ z. z == i) (same_id y) ∙ e in
        rw e (rw e' (ap (λ z. some (f z)) (some-injective y x (rw e at h))))
    | inr e ↦ rw (e, e) (find-update rows x (rw e at h))
  ]

  update_row-none :
      (rows : List SavedItemRow)
      → find (λ x. x.id == i) rows ≡ none
      → update_row answered i f rows ≡ (err saved_item_not_found, rows)
  unfolding update_row
  update_row-none rows e = rw (update_row, e) refl

  update_row-some :
      (rows : List SavedItemRow) (x : SavedItemRow)
      → find (λ x. x.id == i) rows ≡ some x
      → update_row answered i f rows ≡ (ok x, update_where (λ x. x.id == i) f rows)
  unfolding update_row
  update_row-some rows x e = rw (update_row, e) refl

  pub update_row-others :
      (r : StatementReply) (rows : List SavedItemRow)
      → others i (update_row r i f rows).1 ≡ others i rows
  unfolding update_row
  update_row-others answered rows = elim (Option-cases (find (λ x. x.id == i) rows)) [
    | inl e ↦ rw (update_row-none rows e) refl
    | inr (x, e) ↦ rw (update_row-some rows x e) (update-others rows)
  ]
  update_row-others refused rows = refl
  update_row-others lost rows = update-others rows

  pub update_row-frame :
      (r : StatementReply) (rows : List SavedItemRow)
      → map frame (update_row r i f rows).1 ≡ map frame rows
  unfolding update_row
  update_row-frame answered rows = elim (Option-cases (find (λ x. x.id == i) rows)) [
    | inl e ↦ rw (update_row-none rows e) refl
    | inr (x, e) ↦ rw (update_row-some rows x e) (update-frame rows)
  ]
  update_row-frame refused rows = refl
  update_row-frame lost rows = update-frame rows

  pub update_row-found :
      (r : StatementReply) (rows : List SavedItemRow) (x : SavedItemRow)
      → (update_row r i f rows).0 ≡ ok x
      → (find (λ x. x.id == i) rows ≡ some x)
        × (find (λ x. x.id == i) (update_row r i f rows).1 ≡ some (f x))
  unfolding update_row
  update_row-found answered rows x h = elim (Option-cases (find (λ x. x.id == i) rows)) [
    | inl e ↦ cc (rw (update_row-none rows e) at h)
    | inr (y, e) ↦
        let q : y ≡ x = ok-injective y x (rw (update_row-some rows y e) at h) in
        (
          e ∙ ap some q,
          rw (update_row-some rows y e) (find-update rows y e ∙ ap (λ z. some (f z)) q),
        )
  ]
  update_row-found refused rows x h = cc
  update_row-found lost rows x h = cc
