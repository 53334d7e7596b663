-- ===== src/ModelPresets/Tests.antt =====
-- Runs of the preset store, and the concrete inputs of its theorems.
use llamarig.Common.{◌≡◌, refl, true, false, none, some, [], ◌∷◌, All}
use llamarig.Common.Text.{
  Text, codes, ◌=ₜ◌, trim_space, after_prefix, split_at, starts_with, ends_with, cut, join,
  text_ltb,
}
use llamarig.Common.Dict.{Dict, lookup, insert, adjust}
use llamarig.Common.Results.{ok, err}
use llamarig.ModelPresets.{
  Section, Error, not_found, canonical_key, key_pattern, key_aliases, validate_section_name,
}
use llamarig.ModelPresets.Ini.{parse, inner, remove_section, render_section, strip_comment}
use llamarig.ModelPresets.Keys.{canonical_key_idem}
use llamarig.ModelPresets.Store.{File, content, read, put, delete, get}
use llamarig.ModelPresets.Rendered.{stored}
use llamarig.ModelPresets.Put.{put_reads_back}
use llamarig.ModelPresets.Deleted.{delete_removes}
use llamarig.ModelPresets.Padded.{put_padded_breaks}

abbrev two : File
two = content (codes "version = 1\n\n[a]\nctx-size = 4096 ; big\n\n# note\n[b]\nbatch = 8\n")

abbrev qwen : Section
qwen = record { name = codes "a"; values = (codes "LLAMA_ARG_CTX_SIZE", codes "8192") ∷ [] }

abbrev after_put : File
after_put = content (codes "version = 1\n\n\n# note\n[b]\nbatch = 8\n\n[a]\nctx-size = 8192\n")

put-two : put none qwen false two ≡ (ok tt, after_put)
unfolding put ◌=ₜ◌ validate_section_name trim_space canonical_key after_prefix lookup read parse
    split_at starts_with ends_with inner cut adjust insert remove_section join render_section
    text_ltb
put-two = refl

abbrev after_delete : File
after_delete = content (codes "version = 1\n\n[a]\nctx-size = 4096 ; big\n\n# note\n")

delete-two : delete none (codes "b") two ≡ (ok tt, after_delete)
unfolding delete ◌=ₜ◌ validate_section_name trim_space canonical_key after_prefix lookup read parse
    split_at starts_with ends_with inner cut adjust insert remove_section join
delete-two = refl

canonical_key_idem_example :
    (key_pattern (codes "batch-size") ≡ true)
    × (lookup (codes "batch-size") key_aliases ≡ none)
    × (canonical_key (codes "batch-size") ≡ ok (codes "batch-size"))
unfolding canonical_key trim_space ◌=ₜ◌ after_prefix lookup
canonical_key_idem_example = canonical_key_idem (codes "LLAMA_ARG_BATCH") (codes "batch-size") refl

put_reads_back_example :
    (d : Dict Text) × (get (codes "a") after_put ≡ ok (record { name = codes "a"; values = d }))
    × All
        (λ (e : Text × Text).
          (k : Text) → canonical_key e.0 ≡ ok k → lookup k d ≡ some (stored e.1))
        qwen.values
    × ((k : Text) → (codes "a" =ₜ k) ≡ false → get k after_put ≡ get k two)
unfolding trim_space
put_reads_back_example = put_reads_back qwen false two after_put refl put-two

delete_removes_example :
    (get (codes "b") after_delete ≡ err (not_found (codes "b")))
    × ((k : Text) → (codes "b" =ₜ k) ≡ false → get k after_delete ≡ get k two)
delete_removes_example = delete_removes (codes "b") two after_delete delete-two

abbrev padded : Section
padded = record { name = codes " a"; values = [] }

abbrev broken : File
broken =
    content (codes "version = 1\n\n[a]\nctx-size = 4096 ; big\n\n# note\n[b]\nbatch = 8\n\n[ a]\n")

put-padded : put none padded true two ≡ (ok tt, broken)
unfolding put ◌=ₜ◌ validate_section_name trim_space canonical_key after_prefix lookup read parse
    split_at starts_with ends_with inner cut adjust insert remove_section join render_section
    text_ltb
put-padded = refl

put_padded_breaks_example : (e : Error) × (read broken ≡ err e)
unfolding put ◌=ₜ◌ validate_section_name trim_space canonical_key after_prefix lookup read parse
    split_at starts_with ends_with inner cut adjust insert remove_section join render_section
    text_ltb strip_comment
put_padded_breaks_example =
    put_padded_breaks padded
      (record { name = codes "a"; values = (codes "ctx-size", codes "4096") ∷ [] }) true two broken
      ((codes "b", record { name = codes "b"; values = (codes "batch-size", codes "8") ∷ [] })
        ∷ (codes "a", record { name = codes "a"; values = (codes "ctx-size", codes "4096") ∷ [] })
        ∷ [])
      (codes "version = 1\n\n[a]\nctx-size = 4096 ; big\n\n# note\n[b]\nbatch = 8\n") refl refl refl
      put-padded
