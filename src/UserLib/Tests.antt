-- ===== src/UserLib/Tests.antt =====
-- Runs of the user library.
use features_operating_syste.Prelude.{
  ◌≡◌, some, false, [], ◌∷◌, refl, negsuc, ◌==◌, if◌then◌else◌, pos, arith,
}
use features_operating_syste.UserLib.Blocks.{memmove}
use features_operating_syste.UserLib.Blocks.Overlap.{copia, memmove-copia}
use features_operating_syste.UserLib.Strings.{strtol}
use features_operating_syste.UserLib.Fork.{Vista, fork}
use features_operating_syste.UserLib.Sharing.{AlActivar, Completo}
use features_operating_syste.UserLib.Sharing.Result.{resultado, fork-Completo}

-- The pages 2048 and 2049 are there, and the first can be written.
abbrev vista : Vista
vista = record {
  uvpd = λ n. if n == 2 then 7 else 0;
  uvpt = λ pn. if pn == 2048 then 7 else if pn == 2049 then 5 else 0;
  env_pgfault_upcall = 0x800020;
  pgfault_upcall = 0x800020;
  con_handler = false;
}

fork-Completo_example :
    AlActivar (Completo vista) [] (fork vista) × (resultado 4099 (fork vista) ≡ some (pos 4099))
fork-Completo_example = fork-Completo vista 4099 (omega arith) (omega arith)

-- The bytes 0, 1, 2 and so on, of which eight are moved up by three.
memmove-copia_example : memmove (λ a. a) 11 8 8 13 ≡ copia (λ a. a) 11 8 8 13
memmove-copia_example = memmove-copia (λ a. a) 11 8 8 13

-- " -0x1f!"
numero : strtol (b' ' ∷ b'-' ∷ b'0' ∷ b'x' ∷ b'1' ∷ b'f' ∷ b'!' ∷ []) 0 ≡ (negsuc 30, b'!' ∷ [])
unfolding strtol
numero = refl
