-- ===== src/Codec/TypeName.antt =====
-- The names of the IEC types that symbol_codec.go knows, and its table of them.
unfoldable pub use go_ads.Common.Dict.{eq_text}
use go_ads.Common.{Bool, false, ◌||◌, List, [], ◌∷◌, Bytes}

abbrev pub bool : Bytes
bool = b'B' ∷ b'O' ∷ b'O' ∷ b'L' ∷ []

abbrev pub byte : Bytes
byte = b'B' ∷ b'Y' ∷ b'T' ∷ b'E' ∷ []

abbrev pub usint : Bytes
usint = b'U' ∷ b'S' ∷ b'I' ∷ b'N' ∷ b'T' ∷ []

abbrev pub uint : Bytes
uint = b'U' ∷ b'I' ∷ b'N' ∷ b'T' ∷ []

abbrev pub uint16 : Bytes
uint16 = b'U' ∷ b'I' ∷ b'N' ∷ b'T' ∷ b'1' ∷ b'6' ∷ []

abbrev pub word : Bytes
word = b'W' ∷ b'O' ∷ b'R' ∷ b'D' ∷ []

abbrev pub udint : Bytes
udint = b'U' ∷ b'D' ∷ b'I' ∷ b'N' ∷ b'T' ∷ []

abbrev pub dword : Bytes
dword = b'D' ∷ b'W' ∷ b'O' ∷ b'R' ∷ b'D' ∷ []

abbrev pub sint : Bytes
sint = b'S' ∷ b'I' ∷ b'N' ∷ b'T' ∷ []

abbrev pub int : Bytes
int = b'I' ∷ b'N' ∷ b'T' ∷ []

abbrev pub int16 : Bytes
int16 = b'I' ∷ b'N' ∷ b'T' ∷ b'1' ∷ b'6' ∷ []

abbrev pub dint : Bytes
dint = b'D' ∷ b'I' ∷ b'N' ∷ b'T' ∷ []

abbrev pub real : Bytes
real = b'R' ∷ b'E' ∷ b'A' ∷ b'L' ∷ []

abbrev pub lreal : Bytes
lreal = b'L' ∷ b'R' ∷ b'E' ∷ b'A' ∷ b'L' ∷ []

abbrev pub string : Bytes
string = b'S' ∷ b'T' ∷ b'R' ∷ b'I' ∷ b'N' ∷ b'G' ∷ []

abbrev pub wstring : Bytes
wstring = b'W' ∷ b'S' ∷ b'T' ∷ b'R' ∷ b'I' ∷ b'N' ∷ b'G' ∷ []

abbrev pub time : Bytes
time = b'T' ∷ b'I' ∷ b'M' ∷ b'E' ∷ []

abbrev pub tod : Bytes
tod = b'T' ∷ b'O' ∷ b'D' ∷ []

abbrev pub time_of_day : Bytes
time_of_day = b'T' ∷ b'I' ∷ b'M' ∷ b'E' ∷ b'_' ∷ b'O' ∷ b'F' ∷ b'_' ∷ b'D' ∷ b'A' ∷ b'Y' ∷ []

abbrev pub date : Bytes
date = b'D' ∷ b'A' ∷ b'T' ∷ b'E' ∷ []

abbrev pub dt : Bytes
dt = b'D' ∷ b'T' ∷ []

abbrev pub date_and_time : Bytes
date_and_time =
    b'D' ∷ b'A' ∷ b'T' ∷ b'E' ∷ b'_' ∷ b'A' ∷ b'N' ∷ b'D' ∷ b'_' ∷ b'T' ∷ b'I' ∷ b'M' ∷ b'E' ∷ []

abbrev pub lint : Bytes
lint = b'L' ∷ b'I' ∷ b'N' ∷ b'T' ∷ []

abbrev pub ulint : Bytes
ulint = b'U' ∷ b'L' ∷ b'I' ∷ b'N' ∷ b'T' ∷ []

abbrev pub lword : Bytes
lword = b'L' ∷ b'W' ∷ b'O' ∷ b'R' ∷ b'D' ∷ []

unfoldable pub contains : List Bytes → Bytes → Bool
unfolding eq_text
contains [] n = false
contains (x ∷ xs) n = eq_text x n || contains xs n

abbrev pub parseable_types : List Bytes
parseable_types =
    bool ∷ byte ∷ usint ∷ uint ∷ uint16 ∷ word ∷ udint ∷ dword ∷ sint ∷ int ∷ int16 ∷ dint ∷ real
    ∷ lreal ∷ string ∷ wstring ∷ time ∷ tod ∷ time_of_day ∷ date ∷ dt ∷ date_and_time ∷ lint ∷ ulint
    ∷ lword ∷ []
