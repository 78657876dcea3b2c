-- ===== src/Client/ProcessImage/Laws.antt =====
-- The bits of the process image against a PLC that serves them.
use go_ads.Common.{
  ℕ, ◌+◌, ◌*◌, ◌^◌, ◌≡◌, refl, ap, ◌∙◌, Bool, true, false, ◌||◌, [], ◌∷◌, ◌++◌, Bytes, ltb, leb,
  if◌then◌else◌, Result, ok, err, malformed, arith, IsU32, Bool-cases, inl, inr,
}
use go_ads.Common.Words.{put_le, get_le}
use go_ads.Defs.Group
use go_ads.Defs.Command
use go_ads.Codec.Bits.{read_bit, write_bit}
use go_ads.Client.Wire.{read_request, write_request, parse_code_response, parse_data_response}
use go_ads.Client.Wire.Laws.{parse_data_response_ok}
use go_ads.Client.Conn.{Conn, M, ◌>>=◌, lift}
use go_ads.Client.Rpc.{read, write}
use go_ads.Client.ProcessImage.{
  bit_address, first_is_set, read_process_input_bit, write_process_output_bit,
}

-- Without a bit of a byte, or with an address beyond 32 bits, nothing is sent.
unfoldable pub is_refused : ℕ → ℕ → Bool
is_refused byte_offset bit_index = ltb 7 bit_index || leb (2 ^ 32) (byte_offset * 8 + bit_index)

unfoldable pub bit_byte : Bool → ℕ
bit_byte v = if v then 1 else 0

bit_address_lem :
    (byte_offset bit_index : ℕ)
    → bit_address byte_offset bit_index ≡ (
        if is_refused byte_offset bit_index
        then err malformed
        else ok (byte_offset * 8 + bit_index))
unfolding bit_address is_refused
bit_address_lem byte_offset bit_index = ground arith

fits :
    (byte_offset bit_index : ℕ)
    → is_refused byte_offset bit_index ≡ false
    → IsU32 (byte_offset * 8 + bit_index)
unfolding is_refused
fits byte_offset bit_index e = ground arith

-- What a request makes of an answer.
abbrev answered :
    {S A : Type 0} → Conn S → (Bytes → Result A) → Result Bytes × S → Result A × Conn S
answered c parse (r, w) = elim r [
  | ok resp ↦ (parse resp, record c { world = w })
  | err e ↦ (err e, record c { world = w })
]

after :
    {S A B : Type 0} (m : M S A) (f : A → M S B) (c c' : Conn S) {a : A}
    → m c ≡ (ok a, c')
    → (m >>= f) c ≡ f a c'
after m f c c' e = ap (λ x. elim x.0 [ ok a ↦ f a x.1 | err e ↦ (err e, x.1) ]) e

read_ok :
    {S : Type 0} (ask : ℕ → Bytes → S → Result Bytes × S) (group address b : ℕ) (c : Conn S)
    → ask Command.read (read_request group address 1) c.world
      ≡ (ok (put_le 4 0 ++ (put_le 4 1 ++ (b ∷ []))), c.world)
    → read ask group address 1 c ≡ (ok (b ∷ []), c)
unfolding read
read_ok ask group address b c e =
    ap (answered c parse_data_response) e
    ∙ ap (λ r. (r, c)) (parse_data_response_ok (b ∷ []) [] (omega arith))

set_of_bit : (v : Bool) → first_is_set (bit_byte v ∷ []) ≡ ok v
unfolding first_is_set bit_byte
set_of_bit true = refl
set_of_bit false = refl

-- Against a PLC that answers a read of one input bit with the bit of its image, a bit in range is
-- read as the one that ReadBit finds in the image at eight times the byte offset and the index,
-- and otherwise an error is returned and nothing is sent.
pub read_process_input_bit_lem :
    {S : Type 0} (ask : ℕ → Bytes → S → Result Bytes × S) (image : S → Bytes)
    → ((address : ℕ) (w : S)
        → IsU32 address
        → ask Command.read (read_request Group.io_image_rwix address 1) w
          ≡ (ok (put_le 4 0 ++ (put_le 4 1 ++ (bit_byte (read_bit (image w) address) ∷ []))), w))
    → (byte_offset bit_index : ℕ) (c : Conn S)
    → read_process_input_bit ask byte_offset bit_index c ≡ (
      if is_refused byte_offset bit_index
          then err malformed
          else ok (read_bit (image c.world) (byte_offset * 8 + bit_index)),
      c,
    )
unfolding read_process_input_bit
read_process_input_bit_lem ask image serves byte_offset bit_index c =
    let a = bit_address_lem byte_offset bit_index in
    elim (Bool-cases (is_refused byte_offset bit_index)) [
      | inl e ↦ rw (a, e) refl
      | inr e ↦
          let address = byte_offset * 8 + bit_index in
          let r =
            read_ok ask Group.io_image_rwix address (bit_byte (read_bit (image c.world) address)) c
              (serves address c.world (fits byte_offset bit_index e)) in
          rw (a, e)
            (after (read ask Group.io_image_rwix address 1) (λ body. lift (first_is_set body)) c c r
              ∙ ap (λ b. (b, c)) (set_of_bit (read_bit (image c.world) address)))
    ]

code_ok : parse_code_response (put_le 4 0) ≡ ok tt
unfolding parse_code_response get_le put_le
code_ok = refl

written :
    (ask : ℕ → Bytes → Bytes → Result Bytes × Bytes) (group address b : ℕ) (c : Conn Bytes)
    (w : Bytes)
    → ask Command.write (write_request group address (b ∷ [])) c.world ≡ (ok (put_le 4 0), w)
    → write ask group address (b ∷ []) c ≡ (ok tt, record c { world = w })
unfolding write
written ask group address b c w e =
    ap (answered c parse_code_response) e ∙ ap (λ r. (r, record c { world = w })) code_ok

-- Against a PLC that writes an output bit into its image, a bit in range is written as WriteBit
-- writes it, at eight times the byte offset and the index, and otherwise an error is returned and
-- nothing is sent.
pub write_process_output_bit_lem :
    (ask : ℕ → Bytes → Bytes → Result Bytes × Bytes)
    → ((address : ℕ) (v : Bool) (image : Bytes)
        → IsU32 address
        → ask Command.write (write_request Group.io_image_rwox address (bit_byte v ∷ [])) image
          ≡ (ok (put_le 4 0), write_bit image address v))
    → (byte_offset bit_index : ℕ) (v : Bool) (c : Conn Bytes)
    → write_process_output_bit ask byte_offset bit_index v c ≡ (
        if is_refused byte_offset bit_index
        then (err malformed, c)
        else (ok tt, record c { world = write_bit c.world (byte_offset * 8 + bit_index) v }))
unfolding write_process_output_bit
write_process_output_bit_lem ask serves byte_offset bit_index v c =
    let a = bit_address_lem byte_offset bit_index in
    elim (Bool-cases (is_refused byte_offset bit_index)) [
      | inl e ↦ rw (a, e) refl
      | inr e ↦
          let address = byte_offset * 8 + bit_index in
          let r =
            written ask Group.io_image_rwox address (bit_byte v) c _
              (serves address v c.world (fits byte_offset bit_index e)) in
          unfold bit_byte in rw (a, e, r) refl
    ]
