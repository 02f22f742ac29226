-- ===== src/Tests/Files.antt =====
-- Operations on files at concrete values.
use fs.Prelude.Loops.{While}
use fs.File.Read.Enough.{read_runs_enough, read_round}
use fs.File.Paths.Names.{resolve_parent-lookup_path}
use fs.File.Paths.{split_slash, real_parts, components, walk, lookup_path, resolve_parent}
use fs.File.Op.{check_name}
use fs.File.Read.{read_runs}
use fs.Dir.Hash.{SipHash24, from_le}
use fs.Fmt.Bytes.{bytes_eq, Bytes}
use fs.Prelude.{◌%◌, ◌^◌, ◌≡◌, refl, [], ◌∷◌, arith, ok, ℕ, replicate, Out, ltb, ◌>>=◌}
use fs.Tests.{byte_sum}
use fs.Tests.Storage.{small}
use fs.Tests.Mapping.{one_extent}

instance abbrev pub byte_mix : SipHash24
byte_mix = record { finish = λ k0 k1 b. from_le b % 2 ^ 64; finish-lt = λ k0 k1 b. omega arith }

-- The second block of a file whose first four blocks are one extent.
read_runs_enough_example :
    (r : Out (ℕ × Bytes)) × While
      (λ c. ltb c.0 1024)
      (λ c (u : Unit {0}). (read_round 1 small one_extent 512 1024 c, u))
      (512, replicate 512 0)
      tt
      (r, tt)
    × (read_runs 1 512 small one_extent 512 512 1024 (replicate 512 0) ≡ (r >>= λ c. ok c.1))
read_runs_enough_example =
    read_runs_enough 1 512 small one_extent 512 512 1024 (replicate 512 0) (omega arith)

resolve_parent-lookup_path_example :
    resolve_parent 1 small (b'/' ∷ b'a' ∷ b'b' ∷ []) ≡ ok (12, b'a' ∷ b'b' ∷ [])
resolve_parent-lookup_path_example =
    resolve_parent-lookup_path 1 small [] (b'a' ∷ b'b' ∷ []) 12 (unfold check_name bytes_eq in refl)
      (unfold lookup_path walk components split_slash real_parts in refl)
