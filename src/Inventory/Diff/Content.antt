-- ===== src/Inventory/Diff/Content.antt =====
-- What the lists of a diff hold.
use nephio.Base.{
  String, ◌≡◌, refl, sym, ◌∙◌, Bool, true, ◌||◌, Option, none, some, List, [], ◌∷◌, ◌++◌, done,
  and_then-eq-done, is_some, ok, ◌==◌, if◌then◌else◌, arith,
}
use mathlib.Core.List.{append-nil, append_assoc}
use nephio.Base.Dict.{Dict}
use nephio.Ref.{ObjectReference, ref_eq, empty_ref}
use nephio.ConditionType.{Condition}
use nephio.Inventory.{own, resource_kind_eq, initial, ResourceCtx, Inventory}
use nephio.Inventory.Tree.{inv_get}
use nephio.Inventory.Gvk.Roles.{All}
use nephio.Api.{Api, get_spec}
use nephio.Inventory.Diff.{
  DiffCondition, DiffObject, InventoryDiff, empty_diff, stays, cleanup_child, cleanup_children,
  diff_condition, diff_annotation, diff_resource, diff_child, diff_children, diff_for,
  specializer_delete,
}

All-append {ℓ κ} :
    {A : Type ℓ} (P : A → Type κ) (xs ys : List A) → All P xs → All P ys → All P (xs ++ ys)
All-append P [] ys h k = k
All-append P (x ∷ xs) ys h k = (h.0, All-append P xs ys h.1 k)

module _ {O : Type 0} where
  abbrev of_child : ObjectReference → ResourceCtx O → O → DiffObject O
  of_child ref c o = record { ref = ref; obj = o; own_kind = c.kind_ctx.own_kind }

  -- A child whose new object has no existing one.
  abbrev pub creates : ObjectReference × ResourceCtx O → List (DiffObject O)
  creates (ref, c) = elim c.new_resource [
    | none ↦ []
    | some n ↦ if is_some c.existing_resource then [] else of_child ref c n ∷ []
  ]

  -- A child with an existing object and no new one, of a kind that does not stay.
  abbrev pub deletes : ObjectReference × ResourceCtx O → List (DiffObject O)
  deletes (ref, c) = elim c.existing_resource [
    | none ↦ []
    | some o ↦
        if is_some c.new_resource || stays c.kind_ctx.own_kind then [] else of_child ref c o ∷ []
  ]

  -- A child with an existing object that is not initial.
  abbrev pub cleans : ObjectReference × ResourceCtx O → List (DiffObject O)
  cleans (ref, c) = elim c.existing_resource [
    | none ↦ []
    | some o ↦ if c.kind_ctx.own_kind == initial then [] else of_child ref c o ∷ []
  ]

  abbrev pub each :
      (ObjectReference × ResourceCtx O → List (DiffObject O))
      → Dict ObjectReference (ResourceCtx O)
      → List (DiffObject O)
  each f [] = []
  each f (entry ∷ owns) = f entry ++ each f owns

  cleanup_child-lists :
      (entry : ObjectReference × ResourceCtx O) (d : InventoryDiff O)
      → ((cleanup_child entry d).delete_objs ≡ d.delete_objs ++ cleans entry)
        × ((cleanup_child entry d).create_objs ≡ d.create_objs)
  unfolding cleanup_child
  cleanup_child-lists (ref, c) d = ground (arith, append-nil d.delete_objs)

  cleanup_children-lists :
      (owns : Dict ObjectReference (ResourceCtx O)) (d : InventoryDiff O)
      → ((cleanup_children owns d).delete_objs ≡ d.delete_objs ++ each cleans owns)
        × ((cleanup_children owns d).create_objs ≡ d.create_objs)
  unfolding cleanup_children
  cleanup_children-lists [] d = (sym (append-nil d.delete_objs), refl)
  cleanup_children-lists (entry ∷ owns) d =
      let (step, kept) = cleanup_child-lists entry d in
      let (rest, kept') = cleanup_children-lists owns (cleanup_child entry d) in
      (rest ∙ rw (step, append_assoc), kept' ∙ kept)

  diff_condition-lists :
      (ready : Bool) (fc : Option Condition) (x : DiffCondition) (n : Option O)
      (c : Option Condition) (d : InventoryDiff O)
      → ((diff_condition ready fc x n c d).delete_objs ≡ d.delete_objs)
        × ((diff_condition ready fc x n c d).create_objs ≡ d.create_objs)
  unfolding diff_condition
  diff_condition-lists ready fc x n c d = ground arith

module _ (api : Api) where
  open api use {Object}

  diff_annotation-lists :
      (fc : Option Condition) (x : DiffObject Object) (a : Option String)
      (d d' : InventoryDiff Object)
      → diff_annotation api fc x a d ≡ done d'
      → (d'.create_objs ≡ d.create_objs) × (d'.delete_objs ≡ d.delete_objs)
  unfolding diff_annotation
  diff_annotation-lists fc x a d d' h = ground arith

  diff_resource-lists :
      (fc : Option Condition) (ref : ObjectReference) (c : ResourceCtx Object)
      (existing new : Option Object) (d d' : InventoryDiff Object)
      → diff_resource api fc (record { ref = ref; own_kind = c.kind_ctx.own_kind }) existing new d
        ≡ done d'
      → let e : ResourceCtx Object = record c {
        existing_resource = existing;
        new_resource = new;
      } in
        (d'.create_objs ≡ d.create_objs ++ creates (ref, e))
        × (d'.delete_objs ≡ d.delete_objs ++ deletes (ref, e))
  unfolding diff_resource
  diff_resource-lists fc ref c none none d d' h =
      ground (arith, append-nil d.create_objs, append-nil d.delete_objs)
  diff_resource-lists fc ref c none (some n) d d' h =
      ground (arith, append-nil d.create_objs, append-nil d.delete_objs)
  diff_resource-lists fc ref c (some o) none d d' h =
      ground (arith, append-nil d.create_objs, append-nil d.delete_objs)
  diff_resource-lists fc ref c (some o) (some n) d d' h =
      ground (arith, append-nil d.create_objs, append-nil d.delete_objs)

  diff_child-lists :
      (ready : Bool) (fc : Option Condition) (entry : ObjectReference × ResourceCtx Object)
      (d d' : InventoryDiff Object)
      → diff_child api ready fc entry d ≡ done d'
      → (d'.create_objs ≡ d.create_objs ++ creates entry)
        × (d'.delete_objs ≡ d.delete_objs ++ deletes entry)
  unfolding diff_child
  diff_child-lists ready fc (ref, c) d d' h =
      let x : DiffCondition = record { ref = ref; own_kind = c.kind_ctx.own_kind } in
      let d₁ = diff_condition ready fc x c.new_resource c.existing_condition d in
      let (created, deleted) =
        diff_resource-lists fc ref c c.existing_resource c.new_resource d₁ d' h in
      let (kept, kept') = diff_condition-lists ready fc x c.new_resource c.existing_condition d in
      (created ∙ rw kept', deleted ∙ rw kept)

  diff_children-lists :
      (ready : Bool) (fc : Option Condition) (owns : Dict ObjectReference (ResourceCtx Object))
      (d d' : InventoryDiff Object)
      → diff_children api ready fc owns d ≡ done d'
      → (d'.create_objs ≡ d.create_objs ++ each creates owns)
        × (d'.delete_objs ≡ d.delete_objs ++ each deletes owns)
  unfolding diff_children
  diff_children-lists ready fc [] d d' h =
      ground (arith, append-nil d.create_objs, append-nil d.delete_objs)
  diff_children-lists ready fc (entry ∷ owns) d d' h =
      let (d₁, step, rest) =
        and_then-eq-done (diff_child api ready fc entry d) (diff_children api ready fc owns) h in
      let (created, deleted) = diff_child-lists ready fc entry d d₁ step in
      let (created', deleted') = diff_children-lists ready fc owns d₁ d' rest in
      (created' ∙ rw (created, append_assoc), deleted' ∙ rw (deleted, append_assoc))

  -- The objects that a diff creates and deletes for one `for` resource. If it is there: the
  -- children with a new object and no existing one are created, and those with an existing object,
  -- no new one and a kind that is neither initial nor local are deleted. If it is gone: nothing is
  -- created, and the children with an existing object and a kind that is not initial are deleted.
  -- The lists keep the order of the children.
  pub diff_for-lists :
      (inv : Inventory Object) (for_ref : ObjectReference) (c : ResourceCtx Object)
      (d : InventoryDiff Object)
      → diff_for api inv (for_ref, c) ≡ done d
      → let owns = inv_get own (for_ref ∷ empty_ref ∷ []) inv in
        (d.create_objs ≡ (if is_some c.existing_resource then each creates owns else []))
        × (d.delete_objs
            ≡ (if is_some c.existing_resource then each deletes owns else each cleans owns))
  unfolding diff_for
  diff_for-lists inv for_ref c d h =
      let owns = inv_get own (for_ref ∷ empty_ref ∷ []) inv in
      ground (
        arith,
        diff_children-lists inv.ready c.existing_condition owns empty_diff d,
        cleanup_children-lists owns empty_diff,
      )

  -- A child that needs nothing: its condition is there, its existing and its new object have specs
  -- that can be read and agree (or the object is made elsewhere), and the existing one has no delete annotation.
  abbrev pub Settled : ObjectReference × ResourceCtx Object → Type 0
  Settled (ref, c) =
      (o n : Object) × (s t : api.Spec) × (c.existing_resource ≡ some o)
      × (c.new_resource ≡ some n)
      × (is_some c.existing_condition ≡ true)
      × (get_spec api o ≡ ok s)
      × (get_spec api n ≡ ok t)
      × (api.same_spec s t ≡ true)
      × (api.annotation o specializer_delete ≡ none)

  diff_child-Settled :
      (ready : Bool) (fc : Option Condition) (entry : ObjectReference × ResourceCtx Object)
      (d : InventoryDiff Object)
      → Settled entry
      → diff_child api ready fc entry d ≡ done d
  unfolding diff_child diff_resource diff_condition
  diff_child-Settled ready fc (ref, c) d (o, n, s, t, e₁, e₂, e₃, e₄, e₅, e₆, e₇) = ground arith

  diff_children-Settled :
      (ready : Bool) (fc : Option Condition) (owns : Dict ObjectReference (ResourceCtx Object))
      (d : InventoryDiff Object)
      → All Settled owns
      → diff_children api ready fc owns d ≡ done d
  unfolding diff_children
  diff_children-Settled ready fc [] d h = refl
  diff_children-Settled ready fc (entry ∷ owns) d h =
      rw (diff_child-Settled ready fc entry d h.0) (diff_children-Settled ready fc owns d h.1)

  -- For a `for` resource that is there and whose children all need nothing, the diff is empty.
  pub diff_for-Settled :
      (inv : Inventory Object) (for_ref : ObjectReference) (c : ResourceCtx Object)
      → is_some c.existing_resource ≡ true
      → All Settled (inv_get own (for_ref ∷ empty_ref ∷ []) inv)
      → diff_for api inv (for_ref, c) ≡ done empty_diff
  unfolding diff_for
  diff_for-Settled inv for_ref c h k =
      rw h (diff_children-Settled inv.ready c.existing_condition _ empty_diff k)
