-- ===== src/Onboard/English.antt =====
-- internal/onboard/onboard.go: the texts of the English guide.
use road.Base.{List, [], ◌∷◌, Bytes, utf8}
use road.Onboard.Console.{unlines}

unfoldable pub banner_en : Bytes
banner_en = unlines (
    []
    ∷ utf8 "  ╔══════════════════════════════════════════════════════════════════════╗"
    ∷ utf8 "  ║            road-1337 · Security Guide & First-Run Setup              ║"
    ∷ utf8 "  ╚══════════════════════════════════════════════════════════════════════╝"
    ∷ [])

unfoldable pub section_1_en : Bytes
section_1_en = unlines (
    utf8 "  ── What is road-1337? ─────────────────────────────────────────────────"
    ∷ []
    ∷ utf8 "  road-1337 is an end-to-end encrypted (E2EE) terminal messenger"
    ∷ utf8 "  built on a \"Blind Relay\" architecture."
    ∷ []
    ∷ utf8 "  The relay server forwards encrypted packets between peers."
    ∷ utf8 "  It sees ONLY encrypted noise — never your messages, never your keys."
    ∷ utf8 "  There is no central authority. There is no account. There is no database."
    ∷ [])

unfoldable pub section_2_en : Bytes
section_2_en = unlines (
    utf8 "  ── How does anonymity work? ────────────────────────────────────────────"
    ∷ []
    ∷ utf8 "  1. CRYPTOGRAPHY"
    ∷ utf8 "     • X25519 Elliptic-Curve Diffie-Hellman — key exchange."
    ∷ utf8 "     • HKDF-SHA256 — derives a session key from the shared DH secret."
    ∷ utf8 "     • ChaCha20-Poly1305 AEAD — encrypts every packet with authentication."
    ∷ utf8 "     • All packets are padded to exactly 4096 bytes — DPI cannot fingerprint"
    ∷ utf8 "       your traffic by size."
    ∷ []
    ∷ utf8 "  2. BLIND RELAY"
    ∷ utf8 "     • The relay routes packets by SHA-256(recipientPublicKey)."
    ∷ utf8 "     • It never stores anything. RAM only. Logs disabled."
    ∷ utf8 "     • Buffers are zeroed (clear()) after every forward — cold-boot safe."
    ∷ []
    ∷ utf8 "  3. OUT-OF-BAND KEY EXCHANGE"
    ∷ utf8 "     • You share your public key with your peer outside road-1337"
    ∷ utf8 "       (Signal, in person, paper, etc.)"
    ∷ utf8 "     • The relay never participates in the key exchange."
    ∷ utf8 "     • Man-in-the-Middle is impossible if you verify keys out-of-band."
    ∷ [])

unfoldable pub section_3_en : Bytes
section_3_en = unlines (
    utf8 "  ── Operational Security (OpSec) — READ THIS ────────────────────────────"
    ∷ []
    ∷ utf8 "  ⚠  road-1337 protects your MESSAGES in transit."
    ∷ utf8 "     It does NOT protect your IDENTITY or your DEVICE."
    ∷ []
    ∷ utf8 "  To maximize anonymity, combine road-1337 with:"
    ∷ []
    ∷ utf8 "  1. FULL-DISK ENCRYPTION"
    ∷ utf8 "     macOS  → enable FileVault  (System Settings → Privacy & Security)"
    ∷ utf8 "     Windows → enable BitLocker (Control Panel → BitLocker)"
    ∷ utf8 "     Linux  → LUKS at install time"
    ∷ []
    ∷ utf8 "  2. WRITE DOWN YOUR PRIVATE KEY"
    ∷ utf8 "     After setup, your public key is printed to the screen."
    ∷ utf8 "     Your PRIVATE key lives in:"
    ∷ utf8 "       Linux/macOS  → ~/.config/road-1337/private.key"
    ∷ utf8 "       Windows      → %APPDATA%\\road-1337\\private.key"
    ∷ []
    ∷ utf8 "     WRITE THE PRIVATE KEY ON PAPER AND STORE IT SAFELY."
    ∷ utf8 "     If your disk fails or you change devices, this is the ONLY way"
    ∷ utf8 "     to restore your identity. There is no recovery service."
    ∷ []
    ∷ utf8 "  3. NETWORK LAYER"
    ∷ utf8 "     road-1337 encrypts content, not metadata (IP addresses)."
    ∷ utf8 "     For IP anonymity, tunnel through:"
    ∷ utf8 "       • Tor (torsocks road-1337 ...)"
    ∷ utf8 "       • VLESS/Reality proxy"
    ∷ utf8 "       • A trusted VPN"
    ∷ []
    ∷ utf8 "  4. VERIFY KEYS IN PERSON (or via another secure channel)"
    ∷ utf8 "     If you cannot verify your peer's public key out-of-band,"
    ∷ utf8 "     an attacker could impersonate them. Always verify before chatting."
    ∷ []
    ∷ utf8 "  5. /EXIT ON EVERY SESSION"
    ∷ utf8 "     Typing /exit zeroes session keys in RAM. Ctrl+C also zeroes."
    ∷ utf8 "     Never just close the terminal without exiting properly."
    ∷ [])

unfoldable pub section_4_en : Bytes
section_4_en = unlines (
    utf8 "  ── Disclaimer ──────────────────────────────────────────────────────────"
    ∷ []
    ∷ utf8 "  road-1337 is open-source software provided AS IS."
    ∷ []
    ∷ utf8 "  USE AT YOUR OWN RISK. The developer makes NO GUARANTEE of:"
    ∷ utf8 "     • Complete anonymity in all threat models."
    ∷ utf8 "     • Resistance to nation-state-level adversaries."
    ∷ utf8 "     • Bug-free operation in all environments."
    ∷ []
    ∷ utf8 "  You are responsible for your own operational security."
    ∷ utf8 "  If you are operating under a high-risk threat model, consult a"
    ∷ utf8 "  professional security researcher before relying on this tool."
    ∷ [])

abbrev pub sections_en : List Bytes
sections_en = section_1_en ∷ section_2_en ∷ section_3_en ∷ section_4_en ∷ []

-- Each is printed on a line of its own.
unfoldable pub setup_en : List Bytes
setup_en =
    utf8 "  ── Setup ───────────────────────────────────────────────────────────────"
    ∷ []
    ∷ utf8 "  A new X25519 keypair will now be generated for you."
    ∷ utf8 "  Your private key will be saved with 0600 permissions (owner only)."
    ∷ []
    ∷ utf8 "  After generation, share your PUBLIC KEY with your peer"
    ∷ utf8 "  via a secure out-of-band channel."
    ∷ []
    ∷ []

unfoldable pub continue_en : Bytes
continue_en = utf8 " Press Enter to continue..."

unfoldable pub generate_en : Bytes
generate_en = utf8 "  Press Enter to generate your keypair..."
