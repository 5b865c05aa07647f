-- ===== src/Tar/Tests.antt =====
-- Names, paths, links and a small archive at concrete values.
use oracle_free_arch_vps.Base.{
  [], arith, codes, length, lookup, none, ok, refl, some, suc, zero, ℕ, ◌++◌, ◌↔◌, ◌∷◌, ◌≡◌, ◌≤◌,
}
use oracle_free_arch_vps.Profile.{assert_budget}
use oracle_free_arch_vps.Inventory.{Bytes}
use oracle_free_arch_vps.Tar.Guard.{Guard, new_framing, new_guard, write, write_all}
use oracle_free_arch_vps.Tar.Guard.Chunks.{concat, write_all-write}
use oracle_free_arch_vps.Tar.Names.{decode_from, decode_name, escaped, octal_digits}
use oracle_free_arch_vps.Tar.Names.Quoting.{decode_name-quote_bytes, quote_bytes}
use oracle_free_arch_vps.Tar.Paths.{
  add_part, add_parts, has_zero, join, normalize, parts, reversed, start_at,
}
use oracle_free_arch_vps.Tar.Paths.Clean.{IsNormal}
use oracle_free_arch_vps.Tar.Paths.Fixed.{normalize-normalize}
use oracle_free_arch_vps.Tar.Samples.{
  Links, follow, has_slash, link_target, parent_of, resolve_sample,
}
use oracle_free_arch_vps.Tar.Samples.Tracing.{
  Trace, resolve_sample-Trace, resolve_sample_terminates,
}

all_code : Unit {0}
unfolding has_zero parts add_part add_parts join reversed start_at normalize has_slash parent_of
    link_target follow resolve_sample lookup assert_budget decode_name decode_from escaped
    octal_digits quote_bytes
all_code = tt

decode_name-quote_bytes_example :
    decode_name (34 ∷ quote_bytes (b'a' ∷ 10 ∷ 200 ∷ 34 ∷ []) ++ codes " -> x")
    ≡ ok (b'a' ∷ 10 ∷ 200 ∷ 34 ∷ [], codes " -> x")
decode_name-quote_bytes_example =
    decode_name-quote_bytes (b'a' ∷ 10 ∷ 200 ∷ 34 ∷ []) (codes " -> x") (omega arith)

normalize-normalize_example :
    IsNormal (codes "usr/lib/x") × (normalize (codes "usr/lib/x") none ≡ ok (codes "usr/lib/x"))
normalize-normalize_example =
    normalize-normalize (codes "..//lib/./x") (some (codes "usr/bin")) (codes "usr/lib/x")
      (unfold all_code in refl) (unfold all_code in refl)

abbrev boot_links : Links
boot_links =
    (
      codes "boot/Image",
      record {
        path = codes "./boot/Image";
        kind = b'l';
        size = 0;
        target = some (codes "vmlinuz");
        metadata = [];
      },
    )
    ∷ []

resolve_sample_terminates_example :
    resolve_sample (codes "./boot/Image") boot_links
    ≡ follow 1000 boot_links [] [] (codes "boot/Image")
resolve_sample_terminates_example =
    resolve_sample_terminates (codes "./boot/Image") (codes "boot/Image") boot_links 1000
      (omega arith) (unfold all_code in refl)

resolve_sample-Trace_example :
    (current : Bytes) × (normalize (codes "./boot/Image") none ≡ ok current)
    × Trace boot_links current
        (codes "boot/Image" ∷ codes "boot/vmlinuz" ∷ [])
        (codes "boot/vmlinuz")
    × (length (codes "boot/Image" ∷ codes "boot/vmlinuz" ∷ []) ≤ 256)
resolve_sample-Trace_example =
    resolve_sample-Trace (codes "./boot/Image") (codes "boot/vmlinuz") boot_links
      (codes "boot/Image" ∷ codes "boot/vmlinuz" ∷ []) (unfold all_code in refl)

abbrev zeros_of : ℕ → Bytes
zeros_of zero = []
zeros_of (suc n) = 0 ∷ zeros_of n

abbrev ended : Guard
ended = record { total = 1024; framing = record new_framing { zeros = 2 } }

write_all-write_example :
    (write_all ok new_guard (zeros_of 700 ∷ [] ∷ zeros_of 324 ∷ []) ≡ ok ended)
    ↔ (write ok new_guard (concat (zeros_of 700 ∷ [] ∷ zeros_of 324 ∷ [])) ≡ ok ended)
write_all-write_example = write_all-write ok (zeros_of 700 ∷ [] ∷ zeros_of 324 ∷ []) ended
