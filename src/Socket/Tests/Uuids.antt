-- ===== src/Socket/Tests/Uuids.antt =====
-- A text of each UUID, which is read back.
use Prim.Native.String.{String, [], ◌∷◌}
use Prim.Native.Nat.{ℕ, zero, suc}
use forgetty.Base.{◌≡◌, refl, ap, Option, some}

pub uuid_text : ℕ → String
uuid_text zero = []
uuid_text (suc n) = "u" ∷ uuid_text n

size : String → ℕ
size [] = zero
size (c ∷ s) = suc (size s)

pub parse_uuid : String → Option ℕ
parse_uuid s = some (size s)

size-uuid_text : (n : ℕ) → size (uuid_text n) ≡ n
unfolding size uuid_text
size-uuid_text zero = refl
size-uuid_text (suc n) = ap suc (size-uuid_text n)

pub parse_uuid-uuid_text : (n : ℕ) → parse_uuid (uuid_text n) ≡ some n
unfolding parse_uuid
parse_uuid-uuid_text n = ap some (size-uuid_text n)
