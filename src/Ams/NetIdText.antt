-- ===== src/Ams/NetIdText.antt =====
-- `ParseNetID`, `NetIDString` and `NewAMSAddress` of ams.go: the dotted notation.
use go_ads.Common.{
  ℕ, zero, suc, ◌+◌, ◌/◌, ◌%◌, sym, ap, inl, inr, Bool-cases, ltb, ◌≡◌, ◌≢◌, true, false, List, [],
  ◌∷◌, ◌++◌, append_assoc, append-nil, Bytes, All, arith, ◌==◌, Result, ok, err, malformed, ◌>>=◌,
  IsByte,
}
use go_ads.Common.Decimal.{digits, format_uint, parse_uint, parse-format_uint}
use go_ads.Ams.{NetId, AmsAddress, IsNetId}

abbrev dot : ℕ
dot = b'.'

-- `strings.Split(source, ".")`; `cur` is the part being read.
split_dots : Bytes → Bytes → List Bytes
split_dots cur [] = cur ∷ []
split_dots cur (c ∷ s) = elim (c == dot) [
  | true ↦ cur ∷ split_dots [] s
  | false ↦ split_dots (cur ++ (c ∷ [])) s
]

parse_part : Bytes → Result ℕ
parse_part = parse_uint 255

parse_parts : List Bytes → Result NetId
unfolding parse_part
parse_parts (p0 ∷ p1 ∷ p2 ∷ p3 ∷ p4 ∷ p5 ∷ []) = do
  b0 ← parse_part p0
  b1 ← parse_part p1
  b2 ← parse_part p2
  b3 ← parse_part p3
  b4 ← parse_part p4
  b5 ← parse_part p5
  ok (record { b0 = b0; b1 = b1; b2 = b2; b3 = b3; b4 = b4; b5 = b5 })
parse_parts _ = err malformed

pub parse_net_id : Bytes → Result NetId
unfolding parse_parts split_dots
parse_net_id source = parse_parts (split_dots [] source)

pub new_ams_address : Bytes → ℕ → Result AmsAddress
unfolding parse_net_id
new_ams_address net_id port = do id ← parse_net_id net_id; ok (record { net_id = id; port = port })

pub net_id_string : NetId → Bytes
unfolding format_uint
net_id_string n =
    format_uint n.b0
    ++ (dot
        ∷ (format_uint n.b1
            ++ (dot
                ∷ (format_uint n.b2
                    ++ (dot
                        ∷ (format_uint n.b3
                            ++ (dot ∷ (format_uint n.b4 ++ (dot ∷ format_uint n.b5)))))))))

abbrev IsPart : Bytes → Type 0
IsPart = All (λ c. c ≢ dot)

digits-IsPart : (f n : ℕ) (out : Bytes) → IsPart out → IsPart (digits f n out)
unfolding digits
digits-IsPart zero n out h = (omega arith, h)
digits-IsPart (suc f) n out h = elim (Bool-cases (ltb n 10)) [
  | inl p ↦ rw p (ground arith, h)
  | inr p ↦ rw p (digits-IsPart f (n / 10) ((b'0' + n % 10) ∷ out) (omega arith, h))
]

format_uint-IsPart : (n : ℕ) → IsPart (format_uint n)
unfolding format_uint
format_uint-IsPart n = digits-IsPart n n [] tt

split_dots-append :
    (p cur rest : Bytes)
    → IsPart p
    → split_dots cur (p ++ (dot ∷ rest)) ≡ (cur ++ p) ∷ split_dots [] rest
unfolding split_dots
split_dots-append [] cur rest h = ap (λ t. t ∷ split_dots [] rest) (sym (append-nil cur))
split_dots-append (c ∷ p) cur rest (h, hs) =
    ground (arith, split_dots-append p (cur ++ (c ∷ [])) rest hs, append_assoc cur (c ∷ []) p)

split_dots_last : (p cur : Bytes) → IsPart p → split_dots cur p ≡ (cur ++ p) ∷ []
unfolding split_dots
split_dots_last [] cur h = ap (λ t. t ∷ []) (sym (append-nil cur))
split_dots_last (c ∷ p) cur (h, hs) =
    ground (arith, split_dots_last p (cur ++ (c ∷ [])) hs, append_assoc cur (c ∷ []) p)

split-net_id_string :
    (n : NetId)
    → split_dots [] (net_id_string n)
      ≡ format_uint n.b0
        ∷ format_uint n.b1
        ∷ format_uint n.b2
        ∷ format_uint n.b3
        ∷ format_uint n.b4
        ∷ format_uint n.b5
        ∷ []
unfolding net_id_string
split-net_id_string n = rw (
  split_dots-append (format_uint n.b0) [] _ (format_uint-IsPart n.b0),
  split_dots-append (format_uint n.b1) [] _ (format_uint-IsPart n.b1),
  split_dots-append (format_uint n.b2) [] _ (format_uint-IsPart n.b2),
  split_dots-append (format_uint n.b3) [] _ (format_uint-IsPart n.b3),
  split_dots-append (format_uint n.b4) [] _ (format_uint-IsPart n.b4),
  split_dots_last (format_uint n.b5) [] (format_uint-IsPart n.b5),
)

part : (b : ℕ) → IsByte b → parse_part (format_uint b) ≡ ok b
unfolding parse_part
part b h = parse-format_uint 255 b (omega arith)

-- The dotted notation of an address is parsed back to it.
pub parse-net_id_string : (n : NetId) → IsNetId n → parse_net_id (net_id_string n) ≡ ok n
unfolding parse_net_id
parse-net_id_string n h = rw (split-net_id_string n) (
    rw (
      part n.b0 h.b0_fits,
      part n.b1 h.b1_fits,
      part n.b2 h.b2_fits,
      part n.b3 h.b3_fits,
      part n.b4 h.b4_fits,
      part n.b5 h.b5_fits,
    ))
