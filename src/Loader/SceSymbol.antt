-- ===== src/Loader/SceSymbol.antt =====
-- src/loader/sce_symbol.h and src/loader/sce_symbol.cpp: symbol names of the form nid#library#module,
-- whose identifiers are written in a base-64 alphabet. A string is a list of codes.
pub mod Letters
pub mod RoundTrip
pub mod Names
use Prim.Native.Nat.{bit_or}
use kaj_ps.Base.{
  ℕ, zero, suc, ◌+◌, ◌*◌, ◌%◌, ◌^◌, Bool, true, false, not, ◌&&◌, ◌||◌, Option, none, some, List,
  [], ◌∷◌, ltb, ◌==◌, if◌then◌else◌, length,
}
use kaj_ps.Base.Assoc
use kaj_ps.Base.Text.{Bytes, codes, is_empty}

abbrev pub alphabet : Bytes
alphabet = codes "ABCDEFGHIJKLMNOPQRSTUVWXYZabcdefghijklmnopqrstuvwxyz0123456789+-"

-- The place of a character in a string.
unfoldable pub index_of : ℕ → Bytes → Option ℕ
index_of c [] = none
index_of c (d ∷ s) =
    let later = index_of c s in
    if d == c then some 0 else elim later [ none ↦ none | some i ↦ some (suc i) ]

-- The loop of DecodeSceId, on 32-bit numbers.
unfoldable pub decode_from : ℕ → Bytes → Option ℕ
decode_from decoded [] = some decoded
decode_from decoded (c ∷ s) = elim (index_of c alphabet) [
  | none ↦ none
  | some digit ↦ decode_from (bit_or (decoded * 2 ^ 6 % 2 ^ 32) digit) s
]

abbrev pub is_out_of_form : ℕ → ℕ → Bool
is_out_of_form size decoded =
    ltb 0xFFFF decoded || (size == 2) && ltb decoded 0x40 || (size == 3) && ltb decoded 0x1000

-- DecodeSceId
unfoldable pub decode_sce_id : Bytes → Option ℕ
decode_sce_id value =
    if is_empty value || ltb 3 (length value) then none else elim (decode_from 0 value) [
      | none ↦ none
      | some decoded ↦ if is_out_of_form (length value) decoded then none else some decoded
    ]

-- '#'
abbrev pub separator : ℕ
separator = 0x23

-- The string before the first separator, and the string behind it.
unfoldable pub split_at_separator : Bytes → Option (Bytes × Bytes)
split_at_separator [] = none
split_at_separator (c ∷ s) =
    let later = split_at_separator s in
    if c == separator
    then some ([], s)
    else elim later [ none ↦ none | some (before, behind) ↦ some (c ∷ before, behind) ]

pub record SceSymbolReference : Type 0 where
  pub nid : Bytes
  pub library_id : ℕ
  pub module_id : ℕ

-- The end of ParseSceSymbolReference, by the two identifiers.
abbrev pub reference : Bytes → Option ℕ → Option ℕ → Option SceSymbolReference
reference nid (some library) (some m) =
    some (record { nid = nid; library_id = library; module_id = m })
reference nid (some library) none = none
reference nid none m = none

-- ParseSceSymbolReference
unfoldable pub parse_sce_symbol_reference : Bytes → Option SceSymbolReference
parse_sce_symbol_reference symbol = elim (split_at_separator symbol) [
  | none ↦ none
  | some (nid, rest) ↦ elim (split_at_separator rest) [
    | none ↦ none
    | some (library, m) ↦
        if is_empty nid || Assoc.is_some (split_at_separator m)
        then none
        else reference nid (decode_sce_id library) (decode_sce_id m)
  ]
]

pub record ElfModuleIdentity : Type 0 where
  pub id : ℕ
  pub version_major : ℕ
  pub version_minor : ℕ
  pub name : Bytes

pub record ElfLibraryIdentity : Type 0 where
  pub id : ℕ
  pub version : ℕ
  pub name : Bytes

-- The identities that ElfDynamicInfo holds.
pub record Identities : Type 0 where
  pub import_libraries : List ElfLibraryIdentity
  pub export_libraries : List ElfLibraryIdentity
  pub import_modules : List ElfModuleIdentity
  pub export_modules : List ElfModuleIdentity

module _ {ℓ} {I : Type ℓ} (id_of : I → ℕ) where
  -- The search of FindIdentity in one list.
  unfoldable pub find_in : ℕ → List I → Option I
  find_in id [] = none
  find_in id (identity ∷ identities) =
      let later = find_in id identities in if id_of identity == id then some identity else later

  -- FindIdentity
  unfoldable pub find_identity : ℕ → List I → List I → Option I
  find_identity id imports exports =
      let exported = find_in id exports in
      elim (find_in id imports) [ none ↦ exported | some identity ↦ some identity ]

pub record ElfImportReference : Type 0 where
  pub nid : Bytes
  pub library : Option ElfLibraryIdentity
  pub owner : Option ElfModuleIdentity
  pub valid : Bool

abbrev pub resolve_parsed : Identities → Bytes → Option SceSymbolReference → ElfImportReference
resolve_parsed identities before none = record {
  nid = before;
  library = none;
  owner = none;
  valid = false;
}
resolve_parsed identities before (some parsed) =
    let library =
      find_identity (λ (i : ElfLibraryIdentity). i.id) parsed.library_id identities.import_libraries
        identities.export_libraries in
    let owner =
      find_identity (λ (i : ElfModuleIdentity). i.id) parsed.module_id identities.import_modules
        identities.export_modules in
    record {
      nid = parsed.nid;
      library = library;
      owner = owner;
      valid = Assoc.is_some library && Assoc.is_some owner;
    }

-- ResolveElfImportReference
unfoldable pub resolve_elf_import_reference : Identities → Bytes → ElfImportReference
resolve_elf_import_reference identities symbol = elim (split_at_separator symbol) [
  | none ↦ record { nid = symbol; library = none; owner = none; valid = not (is_empty symbol) }
  | some (before, behind) ↦ resolve_parsed identities before (parse_sce_symbol_reference symbol)
]
