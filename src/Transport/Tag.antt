-- ===== src/Transport/Tag.antt =====
-- crates/kobako-transport/src/envelope/tag.rs: the registry of tag bytes.
use kobako.Common.{ℕ, Bool, ◌||◌, ◌==◌}

abbrev pub invalid : ℕ
invalid = 0x00

abbrev pub eval : ℕ
eval = 0x01

abbrev pub run : ℕ
run = 0x02

abbrev pub yield : ℕ
yield = 0x03

abbrev pub call : ℕ
call = 0x04

abbrev pub bindings : ℕ
bindings = 0x05

abbrev pub snippets : ℕ
snippets = 0x06

abbrev pub flag : ℕ
flag = 0x07

abbrev pub compile : ℕ
compile = 0x08

abbrev pub ok : ℕ
ok = 0x10

abbrev pub fault : ℕ
fault = 0x11

abbrev pub break : ℕ
break = 0x12

abbrev pub error : ℕ
error = 0x13

abbrev pub panic : ℕ
panic = 0x14

abbrev pub unsupported : ℕ
unsupported = 0x15

unfoldable pub is_assigned : ℕ → Bool
is_assigned tag =
    tag == invalid
    || tag == eval
    || tag == run
    || tag == yield
    || tag == call
    || tag == bindings
    || tag == snippets
    || tag == flag
    || tag == compile
    || tag == ok
    || tag == fault
    || tag == break
    || tag == error
    || tag == panic
    || tag == unsupported
