-- ===== src/Loader/Tests/SceSymbol.antt =====
-- Symbol names at concrete inputs.
use kaj_ps.Base.{◌≡◌, ◌↔◌, ◌^◌, ◌<◌, refl, some, none}
use kaj_ps.Base.Text.{codes}
use kaj_ps.Loader.SceSymbol.{
  decode_sce_id, decode_from, index_of, parse_sce_symbol_reference, SceSymbolReference,
}
use kaj_ps.Loader.SceSymbol.RoundTrip.{encode_sce_id, decode_sce_id_iff}
use kaj_ps.Loader.SceSymbol.Names.{
  IsReference, print_sce_symbol_reference, parse_sce_symbol_reference_iff,
}

-- A leading zero is refused.
leading_zero : decode_sce_id (codes "AB") ≡ none
unfolding decode_sce_id decode_from index_of
leading_zero = refl

abbrev a_reference : SceSymbolReference
a_reference = record { nid = codes "dGv2"; library_id = 65; module_id = 3 }

spelled_out : print_sce_symbol_reference a_reference ≡ codes "dGv2#BB#D"
unfolding print_sce_symbol_reference encode_sce_id
spelled_out = refl

decode_sce_id_iff_example :
    (decode_sce_id (codes "BB") ≡ some 65) ↔ ((65 < 2 ^ 16) × (codes "BB" ≡ encode_sce_id 65))
decode_sce_id_iff_example = decode_sce_id_iff 65 (codes "BB")

parse_sce_symbol_reference_iff_example :
    (parse_sce_symbol_reference (codes "dGv2#BB#D") ≡ some a_reference)
    ↔ (IsReference a_reference × (codes "dGv2#BB#D" ≡ print_sce_symbol_reference a_reference))
parse_sce_symbol_reference_iff_example =
    parse_sce_symbol_reference_iff (codes "dGv2#BB#D") a_reference
