-- ===== src/Worker/Organization/Effects.antt =====
-- internal/worker/organization/repository.go: what a task may do to the saved items.
use stash_it_backend.Base.{
  ℕ, ◌≡◌, refl, ◌∙◌, Bool, true, false, not, Option, some, ◌==◌, if◌then◌else◌, Result, ok, err,
  update_where, arith,
}
use stash_it_backend.Base.Text.{Text, text_eq}
use stash_it_backend.Database.{Connection}
use stash_it_backend.Database.Rules.{
  execute-bind, read-bind, bind-rule, option-rule, commit-bind, if-rule, transaction-rule,
}
use stash_it_backend.Base.Space.{trim_space}
use stash_it_backend.Worker.Organization.{
  platform_text, Collection, Store, normalize_collection_name, unsorted_key, get_collection_by_name,
  LockedItem, is_in_unsorted, has_platform, is_enrichment_completed, Outcome, moved,
  collection_created, already_organized, did_move, lock_saved_item, create_system_collection,
  move_saved_item, is_item_of,
}
use stash_it_backend.Worker.Organization.Repository.{
  OrganizationError, internal, locks, Meeting, looks_up, looks_again, change_collections, meanwhile,
  create_or_get_collection, finish, file, decide, organize_saved_item,
}

create_system_collection-items :
    (fold : Text → Text) (new user : ℕ) (name key : Text) (st s : Store) (o : Option Collection)
    → create_system_collection fold new user name key st ≡ some (o, s)
    → s.items ≡ st.items
unfolding create_system_collection
create_system_collection-items fold new user name key st s o h = ground arith

-- Both what is durable and the view still have the items of the start.
record Same {A : Type 0} (st : Store) (x : Result OrganizationError A × Connection Store)
    : Type 0 where
  durable : x.1.durable.items ≡ st.items
  view : x.1.view.items ≡ st.items

same :
    {A : Type 0} {st : Store} {r : Result OrganizationError A} {c : Connection Store}
    → c.durable.items ≡ st.items
    → c.view.items ≡ st.items
    → Same st (r, c)
same hd hv = record { durable = hd; view = hv }

module _ (lower fold : Text → Text) (d : Meeting) (new i user : ℕ) (st : Store) where
  create_or_get_collection-Same :
      (platform : Text) (c : Connection Store)
      → c.durable.items ≡ st.items
      → c.view.items ≡ st.items
      → Same st (create_or_get_collection lower fold d new user platform c)
  unfolding create_or_get_collection meanwhile
  create_or_get_collection-Same platform c hd hv =
      let name = trim_space platform in
      if-rule (Same st)
        (text_eq (normalize_collection_name lower name)
          (normalize_collection_name lower unsorted_key))
        _ _ c (λ _. same hd hv)
        (λ _.
          read-bind (Same st) (d.fails looks_up) _ _ (get_collection_by_name fold user name) _ _
            (same hd hv)
            (option-rule (Same st)
              (get_collection_by_name fold user name (change_collections d.before_lookup c.view)) _
              _ _ (λ _ _. same hd hv)
              (λ _.
                execute-bind (Same st) _ _ _ _ _ _ (λ _. same hd hv) (λ _ _. same hd hv)
                  (λ o s _ q.
                    let e = create_system_collection-items fold new user _ _ _ s o q ∙ hv in
                    option-rule (Same st) o _ _ _ (λ _ _. same hd e)
                      (λ _.
                        read-bind (Same st) (d.fails looks_again) _ _
                          (get_collection_by_name fold user name) _ _ (same hd e)
                          (option-rule (Same st)
                            (get_collection_by_name fold user name
                              (change_collections d.before_second s))
                            _ _ _ (λ _ _. same hd e) (λ _. same hd e)))))))

filed-moves :
    (created : Bool) (o : Outcome)
    → ◌≡◌ {A = Result OrganizationError Outcome}
        (ok (if created then collection_created else moved))
        (ok o)
    → did_move o ≡ true
unfolding did_move
filed-moves true o h = ground arith
filed-moves false o h = ground arith

module _ (i user : ℕ) (st : Store) where
  -- The answer of a task, with the store that it leaves: the saved items are as they were, or the
  -- item of the task, which had to be organized, is in another collection.
  pub data Effect : Result OrganizationError Outcome × Store → Type 0 where
    untouched :
        (r : Result OrganizationError Outcome) (s : Store)
        → s.items ≡ st.items
        → ((o : Outcome) → r ≡ ok o → did_move o ≡ false)
        → Effect (r, s)
    filed :
        (l : LockedItem) (target : ℕ) (r : Result OrganizationError Outcome) (s : Store)
        → lock_saved_item i st ≡ some l
        → (l.item.user_id == user) ≡ true
        → is_enrichment_completed l ≡ true
        → has_platform l ≡ true
        → is_in_unsorted l ≡ true
        → (l.item.collection_id == target) ≡ false
        → s.items
          ≡ update_where (is_item_of i user) (λ x. record x { collection_id = target }) st.items
        → ((o : Outcome) → r ≡ ok o → did_move o ≡ true)
        → ((e : OrganizationError) → r ≡ err e → e ≡ internal)
        → Effect (r, s)

  -- The same, at the end of the code.
  abbrev Ends : Result OrganizationError Outcome × Connection Store → Type 0
  Ends x = Effect (x.0, x.1.durable)

  fails : (e : OrganizationError) (s : Store) → s.items ≡ st.items → Effect (err e, s)
  fails e s h = untouched _ s h (λ o q. cc)

  move_saved_item-items :
      (c : ℕ) (s s' : Store) (b : Bool)
      → some (move_saved_item c i user s) ≡ some (b, s')
      → s.items ≡ st.items
      → s'.items ≡ update_where (is_item_of i user) (λ x. record x { collection_id = c }) st.items
  unfolding move_saved_item
  move_saved_item-items c s s' b q h = ground arith

  module _ (d : Meeting) where
    finish-Ends :
        (o : Outcome) (c : Connection Store)
        → did_move o ≡ false
        → c.durable.items ≡ st.items
        → c.view.items ≡ st.items
        → Ends (finish d o c)
    unfolding finish
    finish-Ends o c h hd hv =
        commit-bind Ends _ _ _ c (fails _ _ hd) (fails _ _ hv)
          (untouched _ _ hv (λ o' q. ground arith))

    file-Ends :
        (l : LockedItem) (x : Collection) (created : Bool) (c : Connection Store)
        → lock_saved_item i st ≡ some l
        → (l.item.user_id == user) ≡ true
        → is_enrichment_completed l ≡ true
        → has_platform l ≡ true
        → is_in_unsorted l ≡ true
        → c.durable.items ≡ st.items
        → c.view.items ≡ st.items
        → Ends (file d i user l x created c)
    unfolding file finish did_move
    file-Ends l x created c hl hu he hp hi hd hv =
        if-rule Ends (l.item.collection_id == x.id) _ _ c
          (λ _. finish-Ends already_organized c refl hd hv)
          (λ hx.
            execute-bind Ends _ _ _ _ _ c (λ _. fails _ _ hd) (λ _ _. fails _ _ hd)
              (λ b s _ q.
                let e = move_saved_item-items x.id c.view s b q hv in
                if-rule Ends b _ _ _
                  (λ _.
                    commit-bind Ends _ _ _ _ (fails _ _ hd)
                      (filed l x.id _ s hl hu he hp hi hx e (λ o r. cc) (λ _ r. ground arith))
                      (filed l x.id _ s hl hu he hp hi hx e (λ o r. filed-moves created o r)
                        (λ _ r. cc)))
                  (λ _. fails _ _ hd)))

module _ (lower fold : Text → Text) (d : Meeting) (new i user : ℕ) (st : Store) where
  decide-Ends :
      (l : LockedItem) (c : Connection Store)
      → lock_saved_item i st ≡ some l
      → c.durable.items ≡ st.items
      → c.view.items ≡ st.items
      → Ends i user st (decide lower fold d new i user l c)
  unfolding decide did_move
  decide-Ends l c hl hd hv =
      if-rule (Ends i user st) (not (l.item.user_id == user)) _ _ c (λ _. fails i user st _ _ hd)
        (λ hu.
          if-rule (Ends i user st) (not (is_enrichment_completed l)) _ _ c
            (λ _. finish-Ends i user st d _ c refl hd hv)
            (λ he.
              if-rule (Ends i user st) (not (has_platform l)) _ _ c
                (λ _. finish-Ends i user st d _ c refl hd hv)
                (λ hp.
                  if-rule (Ends i user st) (not (is_in_unsorted l)) _ _ c
                    (λ _. finish-Ends i user st d _ c refl hd hv)
                    (λ hi.
                      let made =
                        create_or_get_collection-Same lower fold d new i user st
                          (platform_text l.item.platform) c hd hv in
                      bind-rule (Ends i user st)
                        (create_or_get_collection lower fold d new user
                          (platform_text l.item.platform))
                        _ c (λ e _. fails i user st e _ made.durable)
                        (λ t _.
                          file-Ends i user st d l t.0 t.1 _ hl (ground arith) (ground arith)
                            (ground arith) (ground arith) made.durable made.view)))))

  -- Whatever goes wrong in a task and whatever others commit to the collections meanwhile: the
  -- saved items stay as they are, or the one of the task is in another collection and every other
  -- column and item is as before, and this only if the item was the user's, its enrichment had
  -- completed with a platform, and it was in the Unsorted collection. An answer tells which.
  pub organize_saved_item-Effect : Effect i user st (organize_saved_item lower fold d new i user st)
  unfolding organize_saved_item
  organize_saved_item-Effect =
      transaction-rule (Effect i user st) _ _ _ st (λ _. fails i user st _ _ refl)
        (λ _.
          read-bind (Ends i user st) (d.fails locks) _ _ (lock_saved_item i) _ _
            (fails i user st _ _ refl)
            (option-rule (Ends i user st) (lock_saved_item i st) _ _ _
              (λ l h. decide-Ends l _ h refl refl) (λ _. fails i user st _ _ refl)))
