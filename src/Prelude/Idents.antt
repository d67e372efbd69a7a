-- ===== src/Prelude/Idents.antt =====
-- The identifiers of the network. The program only compares them and orders them, so each is a
-- number: `XorName` its 256-bit value, `PublicKey` and the ids of credits and messages a code.
use Prim.Native.Nat.{ℕ}

abbrev pub XorName : Type 0
XorName = ℕ

abbrev pub PublicKey : Type 0
PublicKey = ℕ

abbrev pub NodeAge : Type 0
NodeAge = ℕ

-- `Token` wraps its number of nanos, a u64.
abbrev pub Token : Type 0
Token = ℕ

abbrev pub CreditId : Type 0
CreditId = ℕ

abbrev pub MessageId : Type 0
MessageId = ℕ
