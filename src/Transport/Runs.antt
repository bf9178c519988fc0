-- ===== src/Transport/Runs.antt =====
-- Messages as their tests in the source spell them, and the theorems at such messages.
mod Replies
mod Requests
mod Preambles
use kobako.Common.{
  ℕ, ◌<◌, ◌^◌, ◌≡◌, ◌≢◌, ◌↔◌, refl, Bool, true, false, List, [], ◌∷◌, ◌++◌, some, codes, arith,
  length, ok, err,
}
use kobako.Common.Utf8.{is_utf8}
use kobako.Transport.Bytes.{malformed, past_last_field, run, into_bytes, read_text_list}
use kobako.Transport.Bytes.Fields.{IsText}
use kobako.Transport.Abi.{pack_ptr_len, unpack_ptr_len}
use kobako.Transport.Abi.Packing.{unpack-pack}
use kobako.Transport.Tag
use kobako.Transport.Call
use kobako.Transport.Call.{Call, path, handle}
use kobako.Transport.Call.RoundTrip.{IsCall, Call-decode-encode}
use kobako.Transport.Call.Canonical.{Call-decode_iff}

abbrev sample_call : Call
sample_call = record {
  target = path (codes "S");
  method = codes "m";
  block_given = true;
  payload = 0x01 ∷ [];
}

golden_path_call :
    Call.encode sample_call ≡ 0 ∷ 0 ∷ 0 ∷ 0 ∷ 1 ∷ b'S' ∷ 0 ∷ 0 ∷ 0 ∷ 1 ∷ b'm' ∷ 1 ∷ 0x01 ∷ []
unfolding Call.encode into_bytes
golden_path_call = refl

golden_handle_call :
    Call.encode
      (record { target = handle 0x01020304; method = codes "m"; block_given = false; payload = [] })
    ≡ 1 ∷ 1 ∷ 2 ∷ 3 ∷ 4 ∷ 0 ∷ 0 ∷ 0 ∷ 1 ∷ b'm' ∷ 0 ∷ []
unfolding Call.encode into_bytes
golden_handle_call = refl

sentinel_is_refused :
    Call.decode (1 ∷ 0 ∷ 0 ∷ 0 ∷ 0 ∷ 0 ∷ 0 ∷ 0 ∷ 1 ∷ b'm' ∷ 0 ∷ []) ≡ err Call.handle_sentinel
unfolding Call.decode run
sentinel_is_refused = refl

truncated_call_is_refused : Call.decode (0 ∷ 0 ∷ 0 ∷ 0 ∷ 4 ∷ b'a' ∷ []) ≡ err malformed
unfolding Call.decode run
truncated_call_is_refused = refl

sample_call-IsCall : IsCall sample_call
unfolding is_utf8
sample_call-IsCall = record {
  target = record { utf8 = refl; fits = omega arith };
  method = record { utf8 = refl; fits = omega arith };
}

Call-decode-encode_example : Call.decode (Call.encode sample_call) ≡ ok sample_call
Call-decode-encode_example =
    Call-decode-encode sample_call sample_call-IsCall (rw golden_path_call (omega arith))

Call-decode_iff_example :
    (Call.decode (Call.encode sample_call) ≡ ok sample_call)
    ↔ (IsCall sample_call × (Call.encode sample_call ≡ Call.encode sample_call))
Call-decode_iff_example =
    Call-decode_iff (Call.encode sample_call) sample_call (rw golden_path_call (omega arith))
      (rw golden_path_call (omega arith))
