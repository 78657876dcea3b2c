-- ===== src/Client/ProcessImage/Samples.antt =====
-- The bits of the process image at a PLC with an image of two bytes.
use go_ads.Common.{
  ℕ, ◌≡◌, refl, ap, ◌∙◌, Bool, true, false, [], ◌∷◌, ◌++◌, Bytes, ◌==◌, arith, Result, ok, err,
  IsU32,
}
use go_ads.Common.Words.{put_le, get_le, get_le-put_le}
use go_ads.Defs.Group
use go_ads.Defs.Command
use go_ads.Codec.Bits.{write_bit, set_bit, at_byte}
use go_ads.Client.Wire.{write_request}
use go_ads.Client.Conn.{Conn, unchecked}
use go_ads.Client.ProcessImage.{write_process_output_bit}
use go_ads.Client.ProcessImage.Laws.{bit_byte, is_refused, write_process_output_bit_lem}

abbrev plc : Conn Bytes
plc = record { caps = unchecked; world = 5 ∷ 6 ∷ [] }

-- The address in a request, and what follows it.
abbrev taken : {A : Type 0} → A → (ℕ → Bytes → A) → Result (ℕ × Bytes) → A
taken otherwise f (err _) = otherwise
taken otherwise f (ok (n, rest)) = f n rest

abbrev with_address : {A : Type 0} → Bytes → A → (ℕ → Bytes → A) → A
with_address payload otherwise f =
    taken otherwise (λ _ rest. taken otherwise f (get_le 4 rest)) (get_le 4 payload)

with_address_lem :
    {A : Type 0} (group address : ℕ) (more : Bytes) (otherwise : A) (f : ℕ → Bytes → A)
    → IsU32 group
    → IsU32 address
    → with_address (put_le 4 group ++ (put_le 4 address ++ more)) otherwise f ≡ f address more
with_address_lem group address more otherwise f g h =
    ap (taken otherwise λ _ rest. taken otherwise f (get_le 4 rest))
      (get_le-put_le 4 group (put_le 4 address ++ more) g)
    ∙ ap (taken otherwise f) (get_le-put_le 4 address more h)

-- The value behind the length of a write.
abbrev value_of : Bytes → Bool
value_of (n0 ∷ n1 ∷ n2 ∷ n3 ∷ v ∷ rest) = v == 1
value_of _ = false

abbrev accept : ℕ → Bytes → Bytes → Result Bytes × Bytes
accept command payload image =
    with_address payload (ok [], image)
      λ address more. (ok (put_le 4 0), write_bit image address (value_of more))

value_sent : (v : Bool) → value_of (put_le 4 1 ++ (bit_byte v ∷ [])) ≡ v
unfolding bit_byte put_le
value_sent true = refl
value_sent false = refl

accepts :
    (address : ℕ) (v : Bool) (image : Bytes)
    → IsU32 address
    → accept Command.write (write_request Group.io_image_rwox address (bit_byte v ∷ [])) image
      ≡ (ok (put_le 4 0), write_bit image address v)
unfolding write_request
accepts address v image h =
    with_address_lem Group.io_image_rwox address (put_le 4 1 ++ (bit_byte v ∷ [])) (ok [], image)
      (λ a more. (ok (put_le 4 0), write_bit image a (value_of more))) (omega arith) h
    ∙ ap (λ b. (ok (put_le 4 0), write_bit image address b)) (value_sent v)

write_process_output_bit_lem_example :
    write_process_output_bit accept 0 1 true plc ≡ (ok tt, record plc { world = 7 ∷ 6 ∷ [] })
unfolding is_refused write_bit set_bit at_byte
write_process_output_bit_lem_example = write_process_output_bit_lem accept accepts 0 1 true plc
