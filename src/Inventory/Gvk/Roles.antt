-- ===== src/Inventory/Gvk/Roles.antt =====
-- The roles that an accepted configuration gives to the kinds that it names.
use nephio.Base.{
  ◌≡◌, true, false, some, List, [], ◌∷◌, Result, ok, ◌>>=◌, ◌>>◌, >>=-eq-ok, ok-injective, subst,
  is_some, not, ◌&&◌, ◌==◌, arith,
}
use nephio.Base.Dict.{Dict, lookup, lookup-insert}
use nephio.Ref.{
  ObjectReference, Error, ref_eq, validate_gvk_ref, is_wild_card_ref, wildcard_in_for,
  wildcard_not_initial, wildcard_in_watch, no_update_fn,
}
use nephio.Inventory.{
  initial, resource_kind_eq, ResourceKind, WatchCallbackFn, GvkKindCtx, Inventory, Config, node,
  nil, zero_ctx,
}
use nephio.Inventory.Gvk.{
  Roles, gvk_of, guard, for_ctx, own_ctx, watch_ctx, add_gvk_object_reference, add_owns,
  add_watches, initialize_gvk_inventory, new_inventory,
}

abbrev pub All {ℓ κ} : {A : Type ℓ} → (A → Type κ) → List A → Type κ
All P [] = Unit
All P (x ∷ xs) = P x × All P xs

module _ {O : Type 0} where
  -- Every role of the first map is one of the second.
  abbrev Extends : Roles O → Roles O → Type 0
  Extends m n = (k : ObjectReference) (v : GvkKindCtx O) → lookup k m ≡ some v → lookup k n ≡ some v

  add-Extends :
      (kc : GvkKindCtx O) (ref : ObjectReference) (m n : Roles O)
      → add_gvk_object_reference kc ref m ≡ ok n
      → Extends m n × (lookup (gvk_of ref) n ≡ some kc)
  unfolding add_gvk_object_reference
  add-Extends kc ref m n h = (
    λ k v e. ground (arith, lookup-insert k (gvk_of ref) kc m),
    ground (arith, lookup-insert (gvk_of ref) (gvk_of ref) kc m),
  )

  abbrev HasOwn : Roles O → (ObjectReference × ResourceKind) → Type 0
  HasOwn m (ref, rk) = lookup (gvk_of ref) m ≡ some (own_ctx rk)

  abbrev HasWatch : Roles O → (ObjectReference × WatchCallbackFn O) → Type 0
  HasWatch m (ref, cb) = lookup (gvk_of ref) m ≡ some (watch_ctx cb)

  Extends-trans : (m n o : Roles O) → Extends m n → Extends n o → Extends m o
  Extends-trans m n o f g k v e = g k v (f k v e)

  add_owns-Extends :
      (owns : Dict ObjectReference ResourceKind) (m n : Roles O)
      → add_owns owns m ≡ ok n
      → Extends m n × All (HasOwn n) owns
  unfolding add_owns
  add_owns-Extends [] m n h = (λ k v e. ground arith, tt)
  add_owns-Extends ((ref, rk) ∷ owns) m n h =
      let (_, _, h₁) = >>=-eq-ok (validate_gvk_ref ref) _ h in
      let (_, _, h₂) =
        >>=-eq-ok (guard (not (is_wild_card_ref ref && not (rk == initial))) wildcard_not_initial)
          (λ _. add_gvk_object_reference (own_ctx rk) ref m >>= λ more. add_owns owns more) h₁ in
      let (more, added, h₃) =
        >>=-eq-ok (add_gvk_object_reference (own_ctx rk) ref m) (λ more. add_owns owns more) h₂ in
      let (grown, here) = add-Extends (own_ctx rk) ref m more added in
      let (rest, owned) = add_owns-Extends owns more n h₃ in
      (Extends-trans m more n grown rest, (rest _ _ here, owned))

  add_watches-Extends :
      (watches : Dict ObjectReference (WatchCallbackFn O)) (m n : Roles O)
      → add_watches watches m ≡ ok n
      → Extends m n × All (HasWatch n) watches
  unfolding add_watches
  add_watches-Extends [] m n h = (λ k v e. ground arith, tt)
  add_watches-Extends ((ref, cb) ∷ watches) m n h =
      let (_, _, h₁) = >>=-eq-ok (validate_gvk_ref ref) _ h in
      let (_, _, h₂) =
        >>=-eq-ok (guard (not (is_wild_card_ref ref)) wildcard_in_watch)
          (λ _. add_gvk_object_reference (watch_ctx cb) ref m >>= λ more. add_watches watches more)
          h₁ in
      let (more, added, h₃) =
        >>=-eq-ok (add_gvk_object_reference (watch_ctx cb) ref m) (λ more. add_watches watches more)
          h₂ in
      let (grown, here) = add-Extends (watch_ctx cb) ref m more added in
      let (rest, watched) = add_watches-Extends watches more n h₃ in
      (Extends-trans m more n grown rest, (rest _ _ here, watched))

  abbrev pub HasRoles : Config O → Roles O → Type 0
  HasRoles cfg roles =
      (lookup (gvk_of cfg.for_ref) roles ≡ some for_ctx)
      × All (HasOwn roles) cfg.owns
      × All (HasWatch roles) cfg.watches
      × (is_wild_card_ref cfg.for_ref ≡ false)
      × (is_some cfg.update_resource_fn ≡ true)

  All-HasOwn :
      (m n : Roles O) (owns : Dict ObjectReference ResourceKind)
      → Extends m n
      → All (HasOwn m) owns
      → All (HasOwn n) owns
  All-HasOwn m n [] f h = tt
  All-HasOwn m n ((ref, rk) ∷ owns) f h = (f _ _ h.0, All-HasOwn m n owns f h.1)

  initialize-roles :
      (cfg : Config O) (roles : Roles O)
      → initialize_gvk_inventory cfg [] ≡ ok roles
      → HasRoles cfg roles
  unfolding initialize_gvk_inventory
  initialize-roles cfg roles h =
      let (_, _, h₁) = >>=-eq-ok (validate_gvk_ref cfg.for_ref) _ h in
      let (_, plain, h₂) =
        >>=-eq-ok (guard (not (is_wild_card_ref cfg.for_ref)) wildcard_in_for)
          (λ _. add_gvk_object_reference for_ctx cfg.for_ref [] >>= add_rest) h₁ in
      let (with_for, added, h₃) =
        >>=-eq-ok (add_gvk_object_reference for_ctx cfg.for_ref []) add_rest h₂ in
      let (with_owns, owned, h₄) = >>=-eq-ok (add_owns cfg.owns with_for) watch_rest h₃ in
      let (with_watches, watched, h₅) =
        >>=-eq-ok (add_watches cfg.watches with_owns) finish_rest h₄ in
      let (_, updates, h₆) =
        >>=-eq-ok (guard (is_some cfg.update_resource_fn) no_update_fn) (λ _. ok with_watches) h₅ in
      let (_, here) = add-Extends for_ctx cfg.for_ref [] with_for added in
      let (e₁, owns) = add_owns-Extends cfg.owns with_for with_owns owned in
      let (e₂, watches) = add_watches-Extends cfg.watches with_owns with_watches watched in
      rw (← ok-injective h₆) (
        e₂ _ _ (e₁ _ _ here),
        All-HasOwn with_owns with_watches cfg.owns e₂ owns,
        watches,
        ground arith,
        ground arith,
      )
    where
      finish_rest : Roles O → Result Error (Roles O)
      finish_rest w = guard (is_some cfg.update_resource_fn) no_update_fn >> ok w

      watch_rest : Roles O → Result Error (Roles O)
      watch_rest o = add_watches cfg.watches o >>= finish_rest

      add_rest : Roles O → Result Error (Roles O)
      add_rest f = add_owns cfg.owns f >>= watch_rest

  -- In an inventory that a configuration is accepted for, the `for` kind, each `own` kind and each
  -- `watch` kind has its own role, with the kind of child or the callback that the configuration
  -- gives it: no reference to one of them, by any name, matches another role. The `for` reference
  -- is no wildcard and there is a function to update resources.
  pub new_inventory-roles :
      (cfg : Config O) (inv : Inventory O)
      → new_inventory cfg ≡ ok inv
      → HasRoles cfg inv.gvk_resources
  unfolding new_inventory
  new_inventory-roles cfg inv h =
      let (roles, accepted, made) =
        >>=-eq-ok (initialize_gvk_inventory cfg [])
          (λ roles.
            ok (record { gvk_resources = roles; resources = node zero_ctx nil; ready = true }))
          h in
      subst (λ (i : Inventory O). HasRoles cfg i.gvk_resources) (ok-injective made)
        (initialize-roles cfg roles accepted)
