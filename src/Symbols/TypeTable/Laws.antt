-- ===== src/Symbols/TypeTable/Laws.antt =====
-- The fuel of the two loops over the table of types.
use go_ads.Common.Dict.{Dict, Bytes-Key}
