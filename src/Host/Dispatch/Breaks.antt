-- ===== src/Host/Dispatch/Breaks.antt =====
-- A block's exit ends the Call.
use kobako.Common.{
  ok-injective, subst, ℕ, ◌≡◌, ◌↔◌, refl, sym, ap, ◌∙◌, Bool, true, false, ◌||◌, List, [], ◌∷◌, any,
  Bool-cases, inl, inr, Result, ok, err,
}
use kobako.Common.Outcomes.{Result-cases}
use kobako.Transport.Call.{Call}
use kobako.Transport.Fault.{Fault}
use kobako.Transport.Reply.{break}
use kobako.Transport.YieldReply.{YieldReply}
use kobako.Endpoint.Errors.{Trap}
use kobako.Host.Handles.{HandleTable, alloc_handle, get}
use kobako.Host.Yielder.{
  RawYielder, Yielder, arm_of, call_payload, Running, finished, calling, allocating, resolving,
  Receivers,
}
use kobako.Host.Dispatch.{
  CatalogHandler, Frame, lent, bound_in, Nesting, yielded, reply_of, run, resolve_target,
  call_object, answer,
}

abbrev pub is_break : Result YieldReply Trap → Bool
is_break (ok YieldReply.break) = true
is_break _ = false

broken-arm_of :
    {Y : Type 0} (debug : Trap → List ℕ) (x : Result YieldReply Trap × Y) (b : Bool)
    → (arm_of debug x b).1.broken ≡ (is_break x.0 || b)
broken-arm_of debug (ok (YieldReply.ok body), y) b = refl
broken-arm_of debug (ok YieldReply.break, y) b = refl
broken-arm_of debug (ok (YieldReply.error e), y) b = refl
broken-arm_of debug (ok (YieldReply.unsupported refusal), y) b = refl
broken-arm_of debug (err trap, y) b = refl

or-false : (b : Bool) → (b || false) ≡ b
or-false true = refl
or-false false = refl

or-swap : (a b c : Bool) → (a || (b || c)) ≡ ((b || a) || c)
or-swap true true c = refl
or-swap true false c = refl
or-swap false true c = refl
or-swap false false c = refl

-- What the guest's block answers to a yield.
abbrev pub answered : {Y : Type 0} → RawYielder Y → List ℕ → Yielder Y → Result YieldReply Trap
answered raw args b = (raw.yield_to_block (raw.frame b.raw) args b.raw).0

broken-call_payload :
    {Y : Type 0} (raw : RawYielder Y) (args : List ℕ) (b : Yielder Y)
    → (call_payload raw args b).1.broken ≡ (is_break (answered raw args b) || b.broken)
unfolding call_payload
broken-call_payload raw args b =
    broken-arm_of raw.debug (raw.yield_to_block (raw.frame b.raw) args b.raw) b.broken

reply_of-break : (b : Bool) (r : Result (List ℕ) Fault) → (reply_of b r ≡ break) ↔ (b ≡ true)
reply_of-break true r = (λ e. refl, λ e. refl)
reply_of-break false (ok body) = (λ e. cc, λ e. cc)
reply_of-break false (err e) = (λ p. cc, λ p. cc)

module _ {Y A : Type 0} (raw : Nesting Y A) where
  -- What the guest's block answered, yield by yield.
  abbrev pub replies : {b : Bool} → Running A b → Frame Y A → List (Result YieldReply Trap)
  replies (finished result) f = []
  replies (calling given args next) f =
      answered (raw.yielder f.table) args f.yielder
      ∷ (let arm = call_payload (raw.yielder f.table) args f.yielder in
          replies (next arm.0) (yielded raw args f arm))
  replies (allocating object next) f =
      let (id, t) = bound_in (alloc_handle object f.table) f.table in
      replies (next id) (record f { table = t })
  replies (resolving id next) f = replies (next (get f.table id)) f

  broken-run :
      {b : Bool} (r : Running A b) (f : Frame Y A)
      → (run raw r f).1.yielder.broken ≡ (any is_break (replies r f) || f.yielder.broken)
  unfolding run
  broken-run (finished result) f = refl
  broken-run (calling given args next) f =
      let arm = call_payload (raw.yielder f.table) args f.yielder in
      let later = any is_break (replies (next arm.0) (yielded raw args f arm)) in
      broken-run (next arm.0) (yielded raw args f arm)
      ∙ ap (λ b'. later || b') (broken-call_payload (raw.yielder f.table) args f.yielder)
      ∙ or-swap later (is_break (answered (raw.yielder f.table) args f.yielder)) f.yielder.broken
  broken-run (allocating object next) f = broken-run (next _) _
  broken-run (resolving id next) f = broken-run (next (get f.table id)) f

  module _ (receivers : Receivers A) where
    -- Whether a yield of the object's method breaks.
    abbrev pub yields_break : A → Call → Y → HandleTable A → Bool
    yields_break object c y t =
        any is_break (replies (receivers.call object c.method c.payload c.block_given) (lent y t))

    call_object-break :
        (object : A) (c : Call) (y : Y) (t : HandleTable A)
        → ((call_object raw receivers object c y t).0 ≡ break) ↔ (yields_break object c y t ≡ true)
    unfolding call_object
    call_object-break object c y t =
        let r = receivers.call object c.method c.payload c.block_given in
        let same = broken-run r (lent y t) ∙ or-false _ in
        subst
          (λ b.
            (reply_of (run raw r (lent y t)).1.yielder.broken (run raw r (lent y t)).0 ≡ break)
            ↔ (b ≡ true))
          same (reply_of-break _ (run raw r (lent y t)).0)

-- A Call is answered with a break exactly where its target resolves to an object that exposes the
-- method, and a yield to the guest's block was answered with a break, whatever the object made of it.
pub answer-break_iff :
    {Y A : Type 0} (raw : Nesting Y A) (receivers : Receivers A) (display : ℕ → List ℕ)
    (h : CatalogHandler A) (c : Call) (y : Y) (t : HandleTable A)
    → ((answer raw receivers display h c y t).0 ≡ break) ↔ (
        (object : A) × (resolve_target display h c.target t ≡ ok object)
        × (receivers.respond_to_guest object c.method ≡ true)
        × (yields_break raw receivers object c y t ≡ true))
unfolding answer
answer-break_iff {A = A} raw receivers display h c y t =
    elim (Result-cases (resolve_target display h c.target t)) [
      | inr (e, miss) ↦ rw (answer, miss) (λ p. cc, λ q. absurd (unresolved q.1))
      | inl (object, found) ↦ elim (Bool-cases (receivers.respond_to_guest object c.method)) [
        | inr hidden ↦
            rw (answer, found, hidden)
              (
                λ p. cc,
                λ q. absurd (
                    off (
                      sym hidden
                      ∙ ap (λ o. receivers.respond_to_guest o c.method) (ok-injective q.1)
                      ∙ q.2)),
              )
        | inl exposed ↦
            let (forth, back) = call_object-break raw receivers object c y t in
            rw (answer, found, exposed)
              (
                λ p. (object, refl, exposed, forth p),
                λ q. back (
                    subst (λ o. yields_break raw receivers o c y t ≡ true) (sym (ok-injective q.1))
                      q.3),
              )
      ]
    ]
  where
    unresolved : {e : Fault} {a : A} → ◌≡◌ {A = Result A Fault} (err e) (ok a) → ⊥
    unresolved p = cc

    off : ◌≡◌ {A = Bool} false true → ⊥
    off p = cc
