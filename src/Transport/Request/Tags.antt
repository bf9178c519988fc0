-- ===== src/Transport/Request/Tags.antt =====
-- What a request decodes to by its tag alone.
use kobako.Common.{
  ℕ, suc, ◌<◌, ◌^◌, ◌≡◌, ◌≢◌, true, false, List, [], ◌∷◌, arith, length, ◌==◌, if◌then◌else◌,
  Result, ok, err, Bool-cases, inl, inr,
}
use kobako.Transport.Bytes.{Read, DecodeError, pure, lift, run, remaining, ◌>>=◌}
use kobako.Transport.Bytes.Parses.{
  Reads, Ends, Fails, Ends-bind, Ends-remaining, Ends-pure, Reads-lift, run-Ends, run-Fails,
  Reads-bind_last, Reads-pure, Fails-bind, Fails-first, Fails-fail, Fails-lift, Fails-remaining,
}
use kobako.Transport.Bytes.Fields.{Reads-u8}
use kobako.Transport.Tag
use kobako.Transport.Tag.{is_assigned}
use kobako.Transport.Request.{
  UnknownTag, unknown_tag, unknown_down, unknown_up, invalid_tag, other_direction, read_tag,
  unknown, downcall_arm, decode_downcall, upcall_arm, decode_upcall,
}

abbrev pub unrequested {ℓ} : {A : Type ℓ} → ℕ → A → Result A DecodeError
unrequested t a =
    if is_assigned t then err (if t == Tag.invalid then invalid_tag else other_direction) else ok a

eq_false : (a b : ℕ) → a ≢ b → (a == b) ≡ false
eq_false a b h = ground arith

Fails-tag :
    (t : ℕ) (body : List ℕ) → (t == Tag.invalid) ≡ true → Fails read_tag (t ∷ body) invalid_tag
unfolding read_tag
Fails-tag t body z = Fails-bind _ (Reads-u8 t) (rw z (Fails-fail invalid_tag body))

assigned_or_valid : (t : ℕ) → is_assigned t ≡ false → (t == Tag.invalid) ≡ false
unfolding is_assigned
assigned_or_valid t h = ground arith

Reads-tag : (t : ℕ) → (t == Tag.invalid) ≡ false → Reads read_tag (t ∷ []) t
unfolding read_tag
Reads-tag t h = Reads-bind_last _ (Reads-u8 t) (rw h (Reads-pure t))

-- Reading a request whose arm, for the tag `t`, only looks whether `t` is assigned.
module _ {A : Type 0} (arm : ℕ → List ℕ → Read A) (t : ℕ) (body : List ℕ) (wrap : UnknownTag → A)
    (asks : arm t body ≡ (lift (unknown t) >>= λ u. pure (wrap u))) where
  Ends-unassigned : is_assigned t ≡ false → Ends (arm t body) body (wrap (record { number = t }))
  unfolding unknown unknown_tag
  Ends-unassigned e = rw asks (Ends-bind _ (Reads-lift (rw e)) (Ends-pure _ body))

  Fails-assigned : is_assigned t ≡ true → Fails (arm t body) body other_direction
  unfolding unknown unknown_tag
  Fails-assigned e = rw asks (Fails-first _ (Fails-lift body (rw e)))

  abbrev request : Read A
  request = read_tag >>= λ s. remaining >>= λ b. arm s b

  run-request :
      suc (length body) < 2 ^ 63
      → run request (t ∷ body) ≡ unrequested t (wrap (record { number = t }))
  run-request fits = elim (Bool-cases (is_assigned t)) [
    | inl a ↦ elim (Bool-cases (t == Tag.invalid)) [
      | inl z ↦ rw (a, z) (run-Fails (Fails-first _ (Fails-tag t body z)) fits)
      | inr z ↦
          rw (a, z)
            (run-Fails (Fails-bind _ (Reads-tag t z) (Fails-remaining _ (Fails-assigned a))) fits)
    ]
    | inr a ↦ rw a (
        run-Ends
          (Ends-bind _ (Reads-tag t (assigned_or_valid t a)) (Ends-remaining _ (Ends-unassigned a)))
          fits)
  ]

-- A tag that no downcall uses: an unassigned one decodes to an unknown request that keeps it and
-- its body, the invalid one and one assigned elsewhere are refused, each with its error.
pub Downcall-decode-tag :
    (t : ℕ) (body : List ℕ)
    → t ≢ Tag.eval
    → t ≢ Tag.run
    → t ≢ Tag.yield
    → t ≢ Tag.compile
    → suc (length body) < 2 ^ 63
    → decode_downcall (t ∷ body) ≡ unrequested t (unknown_down (record { number = t }) body)
unfolding decode_downcall
Downcall-decode-tag t body e r y c fits =
    run-request downcall_arm t body (λ u. unknown_down u body)
      (rw (
        downcall_arm,
        eq_false t Tag.eval e,
        eq_false t Tag.run r,
        eq_false t Tag.yield y,
        eq_false t Tag.compile c,
      ))
      fits

-- A tag other than that of a Call: an unassigned one decodes to an unknown request that keeps it
-- and its body, the invalid one and one assigned elsewhere are refused, each with its error.
pub Upcall-decode-tag :
    (t : ℕ) (body : List ℕ)
    → t ≢ Tag.call
    → suc (length body) < 2 ^ 63
    → decode_upcall (t ∷ body) ≡ unrequested t (unknown_up (record { number = t }) body)
unfolding decode_upcall
Upcall-decode-tag t body c fits =
    run-request upcall_arm t body (λ u. unknown_up u body) (rw (upcall_arm, eq_false t Tag.call c))
      fits
