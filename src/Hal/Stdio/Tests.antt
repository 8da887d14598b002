-- ===== src/Hal/Stdio/Tests.antt =====
-- A packet and a log line to a host that is always connected.
use aer_handshake_firmware.Base.{
  ℕ, ◌≤◌, ◌≡◌, refl, Bool, true, some, List, [], ◌∷◌, ◌++◌, length, arith,
}
use aer_handshake_firmware.Base.Decimal.{digits}
use aer_handshake_firmware.Hal.Stdio.{Port, Plain}
use aer_handshake_firmware.Hal.Stdio.Packets.{read_packet}
use aer_handshake_firmware.Hal.Stdio.Log.{log_at_boot, log_warn, hal_vlogf}
use aer_handshake_firmware.Hal.Stdio.Log.Lines.{
  read_line, line_of, line_packet, hal_vlogf-read_line,
}

abbrev always : ℕ → Bool
always n = true

abbrev all_of_it : ℕ → List ℕ → List ℕ × ℕ
all_of_it n buf = (buf, length buf)

abbrev as_it_is : ℕ → List ℕ → List ℕ
as_it_is n text = text

abbrev can_write : List ℕ → Bool
can_write line = true

abbrev fresh_port : Port
fresh_port = record { output = 7 ∷ []; queries = 0; writes = 0 }

no_lf : Plain true (line_packet 1234 87 (104 ∷ 105 ∷ []))
unfolding digits
no_lf = refl

hal_vlogf-read_line_example :
    (bytes line : List ℕ) × ((hal_vlogf always all_of_it as_it_is can_write log_at_boot log_warn
        (some (104 ∷ 105 ∷ []))
        1234567
        fresh_port).output
      ≡ 7 ∷ bytes)
    × (read_packet (bytes ++ []) ≡ some (record { type = 1; payload = line }, []))
    × (line ≡ line_of 1234 87 (104 ∷ 105 ∷ []))
    × (length line ≤ 271)
    × (read_line line ≡ some (record { t_ms = 1234; tag = 87; text = 104 ∷ 105 ∷ [] }))
hal_vlogf-read_line_example =
    hal_vlogf-read_line always all_of_it as_it_is can_write true (λ n. refl) (λ n bs plain. refl)
      (λ line. refl) log_at_boot log_warn (104 ∷ 105 ∷ []) 1234567 fresh_port [] refl (omega arith)
      no_lf
