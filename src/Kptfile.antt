-- ===== src/Kptfile.antt =====
-- krm-functions/lib/kptfile/v1/kptfile.go: the readiness gates and the conditions of a Kptfile.
pub mod Store
pub mod Conditions
pub mod Gates
use nephio.Base.{
  String, Bool, true, false, Option, none, some, List, [], ◌∷◌, ◌++◌, Outcome, done, panic,
  and_then, ◌==◌, string_eq, if◌then◌else◌, any, range_delete,
}
use text.Mathlib.Text.{starts_with}
use nephio.Ref.{ObjectReference, Error}
use nephio.ConditionType.{
  ConditionStatus, condition_true, condition_false, condition_unknown, Condition,
  get_condition_type,
}
use Store.{KptfileStore}

abbrev pub is_false : ConditionStatus → Bool
is_false condition_false = true
is_false _ = false

-- The loop of `GetCondition`.
unfoldable pub find_condition : String → List Condition → Option Condition
find_condition ct [] = none
find_condition ct (c ∷ cs) = if c.type == ct then some c else find_condition ct cs

-- The inner loop of `SetConditions`, and the `append` behind it.
unfoldable pub set_one : Condition → List Condition → List Condition
set_one nc [] = nc ∷ []
set_one nc (ec ∷ ecs) = if ec.type == nc.type then nc ∷ ecs else ec ∷ set_one nc ecs

unfoldable pub set_all : List Condition → List Condition → List Condition
unfolding set_one
set_all ecs [] = ecs
set_all ecs (nc ∷ ncs) = set_all (set_one nc ecs) ncs

-- The loop of `DeleteCondition`.
unfoldable pub delete_type : String → List Condition → Outcome (List Condition)
delete_type ct ecs = range_delete (λ c. c.type == ct) ecs

-- The loop of `IsReady`.
unfoldable pub ready_loop : String → Bool → List Condition → Bool
ready_loop prefix found [] = found
ready_loop prefix found (c ∷ cs) =
    let matched =
      (let rest = ready_loop prefix true cs in if is_false c.status then false else rest) in
    let other = ready_loop prefix found cs in if starts_with c.type prefix then matched else other

-- The loops of `SetReadinessGates`: a gate is its condition type.
unfoldable pub add_gates : List String → List String → List String
add_gates gates [] = gates
add_gates gates (ct ∷ cts) =
    add_gates (if any (λ gate. gate == ct) gates then gates else gates ++ ct ∷ []) cts

module _ (S : KptfileStore) where
  open S use {File}

  abbrev or_nil {ℓ} : {A : Type ℓ} → Option (List A) → List A
  or_nil none = []
  or_nil (some xs) = xs

  -- `GetReadinessGates`
  unfoldable pub get_readiness_gates : File → List String
  get_readiness_gates f = or_nil (S.gates f)

  -- `HasReadinessGate`
  unfoldable pub has_readiness_gate : File → String → Bool
  unfolding get_readiness_gates
  has_readiness_gate f ct = any (λ gate. gate == ct) (get_readiness_gates f)

  -- `SetReadinessGates`
  unfoldable pub set_readiness_gates : File → List String → File × Option Error
  unfolding get_readiness_gates add_gates
  set_readiness_gates f cts = S.put_gates f (add_gates (get_readiness_gates f) cts)

  -- `GetConditions`
  unfoldable pub get_conditions : File → List Condition
  get_conditions f = or_nil (S.conditions f)

  -- `GetCondition`
  unfoldable pub get_condition : File → String → Option Condition
  unfolding get_conditions find_condition
  get_condition f ct = find_condition ct (get_conditions f)

  -- `SetConditions`
  unfoldable pub set_conditions : File → List Condition → File × Option Error
  unfolding get_conditions set_all
  set_conditions f ncs = S.put_conditions f (set_all (get_conditions f) ncs)

  -- `DeleteCondition`
  unfoldable pub delete_condition : File → String → Outcome (File × Option Error)
  unfolding get_conditions delete_type
  delete_condition f ct =
      and_then (delete_type ct (get_conditions f)) (λ ecs. done (S.put_conditions f ecs))

  -- `IsReady`
  unfoldable pub is_ready : File → String → Bool
  unfolding get_conditions ready_loop
  is_ready f prefix = ready_loop prefix false (get_conditions f)

  module _ (group_version : String → Option String) where
    -- `DeleteConditionRef`
    unfoldable pub delete_condition_ref : File → ObjectReference → Outcome (File × Option Error)
    unfolding delete_condition
    delete_condition_ref f ref = delete_condition f (get_condition_type group_version ref)

    -- The condition that `SetConditionRefFailed` writes, from the one that it finds.
    unfoldable pub failed_condition : String → String → Option Condition → Condition
    failed_condition ct msg (some c) = record c { message = msg; status = condition_false }
    failed_condition ct msg none = record {
      type = ct;
      status = condition_false;
      reason = "";
      message = msg;
    }

    -- `SetConditionRefFailed`
    unfoldable pub set_condition_ref_failed : File → ObjectReference → String → File × Option Error
    unfolding get_condition failed_condition set_conditions
    set_condition_ref_failed f ref msg =
        let ct = get_condition_type group_version ref in
        set_conditions f (failed_condition ct msg (get_condition f ct) ∷ [])
