-- ===== src/Codec/Payload/RoundTrip.antt =====
-- Decoding what the arguments of an invocation encode to, and what the decoder accepts.
use kobako.Common.{ℕ, ◌≤◌, ◌≡◌, ◌↔◌, refl, ap, ◌∙◌, Option, List, [], ◌∷◌, ok, ok-injective}
use kobako.Common.Outcomes.{◌>>=◌, ok_inv}
use kobako.Codec.Values.{
  Value, array, map, Items, no_items, item, Pairs, no_pairs, pair, max_nesting_depth,
}
use kobako.Codec.Values.{sym as symbol}
use kobako.Codec.Rmp.{Rmp}
use kobako.Codec.Rmp.Laws.{IsRmp}
use kobako.Codec.Decoder.{new, with_value_budget, read_sole_value}
use kobako.Codec.Sizes.{size, depth}
use kobako.Codec.RoundTrip.{Value-decode-encode}
use kobako.Codec.RoundTrip.Reading.{Affords}
use kobako.Codec.RoundTrip.Sendable.{IsSendable, normal, normal_items, normal_pairs}
use kobako.Codec.Payload.{
  Arguments, symbol_pairs, frame, encode, split_frame, args_of, named, kwargs_of, arguments_of,
  decode_within,
}

abbrev pub normal_kwargs : List (List ℕ × Value) → List (List ℕ × Value)
normal_kwargs [] = []
normal_kwargs ((name, v) ∷ rest) = (name, normal v) ∷ normal_kwargs rest

abbrev pub normal_arguments : Arguments → Arguments
normal_arguments a = record { args = normal_items a.args; kwargs = normal_kwargs a.kwargs }

named-symbol_pairs :
    (kwargs : List (List ℕ × Value))
    → named (normal_pairs (symbol_pairs kwargs)) ≡ ok (normal_kwargs kwargs)
unfolding named normal
named-symbol_pairs [] = refl
named-symbol_pairs ((name, v) ∷ rest) =
    ap (λ r. r >>= λ more. ok ((name, normal v) ∷ more)) (named-symbol_pairs rest)

arguments_of-frame : (a : Arguments) → arguments_of (normal (frame a)) ≡ ok (normal_arguments a)
unfolding arguments_of normal
arguments_of-frame a =
    ap (λ r. r >>= λ kwargs. ok (record { args = normal_items a.args; kwargs = kwargs }))
      (named-symbol_pairs a.kwargs)

-- Where `rmp` is as documented, arguments encode and decode to themselves, in their order and with
-- their names, up to a UInt that an i64 holds: where the array of both is at most 128 levels deep,
-- its numbers, texts, lengths and Handle ids are in range, and the budget affords its values.
pub Arguments-decode-encode :
    (r : Rmp) (a : Arguments) (budget : Option ℕ)
    → IsRmp r
    → depth (frame a) ≤ max_nesting_depth
    → IsSendable (frame a)
    → Affords budget (size (frame a))
    → (bytes : List ℕ) × (encode r a ≡ ok bytes)
      × (decode_within r bytes budget ≡ ok (normal_arguments a))
unfolding encode decode_within
Arguments-decode-encode r a budget law d s pays =
    let (bytes, encoded, decoded) = Value-decode-encode r (frame a) budget law d s pays in
    (bytes, encoded, ap (λ v. v >>= arguments_of) decoded ∙ arguments_of-frame a)

named_inv :
    (ps : Pairs) (kwargs : List (List ℕ × Value)) → named ps ≡ ok kwargs → ps ≡ symbol_pairs kwargs
unfolding named
named_inv no_pairs kwargs e = rw (← ok-injective e)
named_inv (pair (symbol name) v ps) kwargs e =
    let (rest, h, q) = ok_inv _ (named ps) e in
    rw (← ok-injective q) (ap (pair (symbol name) v) (named_inv ps rest h))
named_inv (pair k v ps) kwargs e = cc

split_frame_inv : (v x y : Value) → split_frame v ≡ ok (x, y) → v ≡ array (item x (item y no_items))
unfolding split_frame
split_frame_inv (array (item a (item b no_items))) x y e =
    rw (ap (λ p. p.0) (ok-injective e), ap (λ p. p.1) (ok-injective e))
split_frame_inv v x y e = cc

args_of_inv : (v : Value) (vs : Items) → args_of v ≡ ok vs → v ≡ array vs
unfolding args_of
args_of_inv (array items) vs e = rw (ok-injective e)
args_of_inv v vs e = cc

kwargs_of_inv :
    (v : Value) (kwargs : List (List ℕ × Value))
    → kwargs_of v ≡ ok kwargs
    → v ≡ map (symbol_pairs kwargs)
unfolding kwargs_of
kwargs_of_inv (map ps) kwargs e = ap map (named_inv ps kwargs e)
kwargs_of_inv v kwargs e = cc

arguments_of_inv : (v : Value) (a : Arguments) → arguments_of v ≡ ok a → v ≡ frame a
unfolding arguments_of
arguments_of_inv v a e =
    let (both, h, e1) = ok_inv _ (split_frame v) e in
    let (args, h1, e2) = ok_inv _ (args_of both.0) e1 in
    let (kwargs, h2, e3) = ok_inv _ (kwargs_of both.1) e2 in
    split_frame_inv v both.0 both.1 h
    ∙ ap (λ x. array (item x (item both.1 no_items))) (args_of_inv both.0 args h1)
    ∙ ap (λ y. array (item (array args) (item y no_items))) (kwargs_of_inv both.1 kwargs h2)
    ∙ ap frame (ok-injective e3)

named-symbol_pairs_self : (kwargs : List (List ℕ × Value)) → named (symbol_pairs kwargs) ≡ ok kwargs
unfolding named
named-symbol_pairs_self [] = refl
named-symbol_pairs_self ((name, v) ∷ rest) =
    ap (λ r. r >>= λ more. ok ((name, v) ∷ more)) (named-symbol_pairs_self rest)

arguments_of-frame_self : (a : Arguments) → arguments_of (frame a) ≡ ok a
unfolding arguments_of
arguments_of-frame_self a =
    ap (λ r. r >>= λ kwargs. ok (record { args = a.args; kwargs = kwargs }))
      (named-symbol_pairs_self a.kwargs)

-- Bytes decode to arguments exactly when their sole value, read under the budget, is the array of
-- the positional arguments and a map of the keyword ones with a Symbol for every name.
pub decode_within_iff :
    (r : Rmp) (bytes : List ℕ) (budget : Option ℕ) (a : Arguments)
    → (decode_within r bytes budget ≡ ok a)
      ↔ (read_sole_value r (with_value_budget budget (new bytes)) ≡ ok (frame a))
unfolding decode_within
decode_within_iff r bytes budget a = (
  λ e.
      let (v, read, h) = ok_inv _ (read_sole_value r (with_value_budget budget (new bytes))) e in
      read ∙ ap ok (arguments_of_inv v a h),
  λ e. ap (λ v. v >>= arguments_of) e ∙ arguments_of-frame_self a,
)
