-- ===== src/Prelude/Paths.antt =====
-- Python's `strip("/")` and its one-sided forms, on texts with forward slashes.
use Prim.Native.Char.{code}
use Prim.Native.String.{String}
use mathlib.Core.Bool.{◌&&◌}
use efloud.Prelude.Tests.{if◌then◌else◌, ◌==◌, nat_eq, string_eq}

-- `s.lstrip("/")`
unfoldable pub lstrip_slash : String → String
lstrip_slash String.[] = String.[]
lstrip_slash (String.◌∷◌ c s) =
    let rest = lstrip_slash s in if code c == b'/' then rest else String.◌∷◌ c s

-- `s.rstrip("/")`
unfoldable pub rstrip_slash : String → String
rstrip_slash String.[] = String.[]
rstrip_slash (String.◌∷◌ c s) =
    let rest = rstrip_slash s in
    if code c == b'/' && rest == "" then String.[] else String.◌∷◌ c rest

-- `s.strip("/")`
unfoldable pub strip_slash : String → String
unfolding lstrip_slash rstrip_slash
strip_slash s = rstrip_slash (lstrip_slash s)
