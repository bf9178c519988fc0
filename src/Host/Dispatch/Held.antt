-- ===== src/Host/Dispatch/Held.antt =====
-- A Handle holds for the rest of the invocation.
use kobako.Common.{
  ltb, ok-injective, ℕ, ◌≡◌, ◌≤◌, ◌<◌, sym, ap, ◌∙◌, subst, Bool, none, some, List, [], ◌∷◌, length,
  arith, Bool-cases, inl, inr, Result, ok, err, ◌⊎◌,
}
use kobako.Common.Outcomes.{Result-cases}
use kobako.Transport.Call.{Call, handle}
use kobako.Endpoint.Buffer.RoundTrip.{Option-cases}
use kobako.Transport.Fault.{Fault}
use kobako.Host.Handles.{HandleTable, max_handle_id, alloc_handle, get}
use kobako.Host.Handles.Ids.{IsTable, alloc-Issued, alloc_handle-full, alloc_handle-others}
use kobako.Host.Yielder.{call_payload, Running, finished, calling, allocating, resolving, Receivers}
use kobako.Host.Dispatch.{
  CatalogHandler, Frame, lent, bound_in, Nesting, bind_each, yielded, run, resolve_target,
  call_object, answer,
}

-- What a Call leaves of a table: the ids that are bound stay bound to their objects.
record Extends {A : Type 0} (t t' : HandleTable A) : Type 0 where
  table : IsTable t'
  keeps : (id : ℕ) (object : A) → get t id ≡ some object → get t' id ≡ some object

Extends-refl : {A : Type 0} (t : HandleTable A) → IsTable t → Extends t t
Extends-refl t within = record { table = within; keeps = λ id object e. e }

Extends-trans : {A : Type 0} {t u v : HandleTable A} → Extends t u → Extends u v → Extends t v
Extends-trans a b = record {
  table = b.table;
  keeps = λ id object e. b.keeps id object (a.keeps id object e);
}

nothing : {A : Type 0} {a : A} → none ≡ some a → ⊥
nothing e = cc

room_or_full : (n m : ℕ) → n ≤ m → (n < m) ⊎ (n ≡ m)
room_or_full n m h = elim (Bool-cases (ltb n m)) [
  | inl e ↦ inl (ground arith)
  | inr e ↦ inr (ground arith)
]

Extends-alloc :
    {A : Type 0} (object : A) (t : HandleTable A)
    → IsTable t
    → Extends t (bound_in (alloc_handle object t) t).1
Extends-alloc object t within = elim (room_or_full (length t.entries) max_handle_id within.within) [
  | inr full ↦ rw (alloc_handle-full object t full) (Extends-refl t within)
  | inl room ↦
      let (id, t', e, issued) = alloc-Issued object t room in
      rw e (record {
        table = issued.table;
        keeps = λ j a bound.
            alloc_handle-others object t t' id j room e
              (λ same. nothing (sym issued.fresh ∙ subst (λ k. get t k ≡ some a) same bound))
            ∙ bound;
      })
]

Extends-bind_each :
    {A : Type 0} (objects : List A) (t : HandleTable A)
    → IsTable t
    → Extends t (bind_each objects t)
unfolding bind_each
Extends-bind_each [] t within = Extends-refl t within
Extends-bind_each (object ∷ objects) t within =
    let grown = Extends-alloc object t within in
    Extends-trans grown (Extends-bind_each objects _ grown.table)

module _ {Y A : Type 0} (raw : Nesting Y A) where
  Extends-run :
      {b : Bool} (r : Running A b) (f : Frame Y A)
      → IsTable f.table
      → Extends f.table (run raw r f).1.table
  unfolding run
  Extends-run (finished result) f h = Extends-refl f.table h
  Extends-run (calling given args next) f h =
      let arm = call_payload (raw.yielder f.table) args f.yielder in
      let grown = Extends-bind_each (raw.bound f.table args f.yielder.raw) f.table h in
      Extends-trans grown (Extends-run (next arm.0) (yielded raw args f arm) grown.table)
  Extends-run (allocating object next) f h =
      let grown = Extends-alloc object f.table h in
      let (id, t) = bound_in (alloc_handle object f.table) f.table in
      Extends-trans grown (Extends-run (next id) (record f { table = t }) grown.table)
  Extends-run (resolving id next) f h = Extends-run (next (get f.table id)) f h

  module _ (receivers : Receivers A) (display : ℕ → List ℕ) (h : CatalogHandler A) where
    Extends-answer :
        (c : Call) (y : Y) (t : HandleTable A)
        → IsTable t
        → Extends t (answer raw receivers display h c y t).1.1
    unfolding answer call_object
    Extends-answer c y t within = elim (Result-cases (resolve_target display h c.target t)) [
      | inr (e, miss) ↦ rw (answer, miss) (Extends-refl t within)
      | inl (object, found) ↦ elim (Bool-cases (receivers.respond_to_guest object c.method)) [
        | inr hidden ↦ rw (answer, found, hidden) (Extends-refl t within)
        | inl exposed ↦
            rw (answer, found, exposed)
              (Extends-run (receivers.call object c.method c.payload c.block_given) (lent y t)
                within)
      ]
    ]

    -- The table and the engine's state after the Calls of an invocation, one after the other.
    abbrev pub answer_each : List Call → Y → HandleTable A → Y × HandleTable A
    answer_each [] y t = (y, t)
    answer_each (c ∷ cs) y t =
        let (reply, after) = answer raw receivers display h c y t in answer_each cs after.0 after.1

    Extends-answer_each :
        (cs : List Call) (y : Y) (t : HandleTable A) → IsTable t → Extends t (answer_each cs y t).1
    Extends-answer_each [] y t within = Extends-refl t within
    Extends-answer_each (c ∷ cs) y t within =
        let after = (answer raw receivers display h c y t).1 in
        let e = Extends-answer c y t within in
        Extends-trans e (Extends-answer_each cs after.0 after.1 e.table)

unresolved : {A : Type 0} {e : Fault} {a : A} → ◌≡◌ {A = Result A Fault} (err e) (ok a) → ⊥
unresolved p = cc

resolved-get :
    {A : Type 0} (display : ℕ → List ℕ) (h : CatalogHandler A) (id : ℕ) (t : HandleTable A)
    {object : A}
    → resolve_target display h (handle id) t ≡ ok object
    → get t id ≡ some object
unfolding resolve_target
resolved-get display h id t e = elim (Option-cases (get t id)) [
  | inl missing ↦ absurd (unresolved (rw (resolve_target, missing) at e))
  | inr (a, there) ↦ there ∙ ap some (ok-injective (rw (resolve_target, there) at e))
]

-- In a table of at most 2 ^ 31 - 1 objects, a Handle that a Call's target resolves still resolves to the
-- same object after any further Calls, whatever their receivers do, whatever their blocks answer and the
-- Calls nested in the blocks bind, and however they end.
pub answer_each-held :
    {Y A : Type 0} (raw : Nesting Y A) (receivers : Receivers A) (display : ℕ → List ℕ)
    (h : CatalogHandler A) (cs : List Call) (y : Y) (t : HandleTable A) (id : ℕ) (object : A)
    → IsTable t
    → resolve_target display h (handle id) t ≡ ok object
    → resolve_target display h (handle id) (answer_each raw receivers display h cs y t).1
      ≡ ok object
unfolding resolve_target
answer_each-held raw receivers display h cs y t id object within e = rw (
  resolve_target,
  (Extends-answer_each raw receivers display h cs y t within).keeps id object
      (resolved-get display h id t e),
)
