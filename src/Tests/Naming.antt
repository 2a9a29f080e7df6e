-- ===== src/Tests/Naming.antt =====
-- Stored names (crates/patwari-server/src/contract.rs).
use patwari.Contract.Names.Kind
use patwari.Prelude.{bytes, none, refl, text_eq, ◌≡◌}
use patwari.Contract.Names.{match_str}

unknown_kind : Kind.parse (bytes "blob") ≡ none
unfolding Kind.parse text_eq match_str
unknown_kind = refl
