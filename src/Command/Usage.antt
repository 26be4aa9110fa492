-- ===== src/Command/Usage.antt =====
-- cmd/road-1337/main.go: the banner, and what `printUsage` prints.
use road.Base.{[], ◌∷◌, ◌++◌, Bytes, codes, utf8}
use road.Onboard.Console.{unlines}

unfoldable pub banner : Bytes
banner = unlines (
    []
    ∷ utf8 " ██████╗  ██████╗  █████╗ ██████╗       ██╗██████╗ ██████╗ ███████╗"
    ∷ utf8 " ██╔══██╗██╔═══██╗██╔══██╗██╔══██╗      ██║╚════██╗╚════██╗╚════██║"
    ∷ utf8 " ██████╔╝██║   ██║███████║██║  ██║█████╗██║ █████╔╝ █████╔╝    ██╔╝"
    ∷ utf8 " ██╔══██╗██║   ██║██╔══██║██║  ██║╚════╝╚═╝ ╚═══██╗ ╚═══██╗   ██╔╝"
    ∷ utf8 " ██║  ██║╚██████╔╝██║  ██║██████╔╝      ██║██████╔╝██████╔╝   ██║"
    ∷ utf8 " ╚═╝  ╚═╝ ╚═════╝ ╚═╝  ╚═╝╚═════╝       ╚═╝╚═════╝ ╚═════╝    ╚═╝"
    ∷ [])

unfoldable usage_text : Bytes
usage_text = unlines (
    []
    ∷ utf8 "USAGE"
    ∷ []
    ∷ utf8 "  road-1337 generate-keychain"
    ∷ utf8 "      Generate X25519 keypair, encrypt with Argon2id master passphrase."
    ∷ utf8 "      Private key: ~/.config/road-1337/config.json  (Linux/macOS)"
    ∷ utf8 "                   %APPDATA%\\road-1337\\config.json   (Windows)"
    ∷ []
    ∷ utf8 "  road-1337 restore-key"
    ∷ utf8 "      Restore private key from Base58 input + set new passphrase."
    ∷ utf8 "      Use when migrating to a new machine."
    ∷ []
    ∷ utf8 "  road-1337 server [--port 1337]"
    ∷ utf8 "      Start the Blind Relay."
    ∷ utf8 "      RAM-only · zero logging · zero plaintext visibility."
    ∷ []
    ∷ utf8 "  road-1337 [IP]:[PORT]@[PUBLIC_KEY]"
    ∷ utf8 "      Connect to a peer via the relay."
    ∷ utf8 "      Example: road-1337 1.2.3.4:1337@7UZFJb3xKpLm..."
    ∷ []
    ∷ utf8 "  road-1337 tui"
    ∷ utf8 "      Launch TUI in demo mode (no network required)."
    ∷ []
    ∷ utf8 "  road-1337 version"
    ∷ utf8 "      Print build version."
    ∷ []
    ∷ utf8 "CHAT COMMANDS"
    ∷ []
    ∷ utf8 "  /file <path>  — send a file (128 KB chunks, encrypted)"
    ∷ utf8 "  /exit         — graceful disconnect + session key zeroization"
    ∷ utf8 "  PgUp / PgDn   — scroll message history"
    ∷ utf8 "  Ctrl+C        — force quit with key zeroization"
    ∷ []
    ∷ utf8 "SECURITY"
    ∷ []
    ∷ utf8 "  Key exchange     : X25519 ECDH (out-of-band key distribution)"
    ∷ utf8 "  Key derivation   : HKDF-SHA256 (NIST SP 800-56C)"
    ∷ utf8 "  Encryption       : ChaCha20-Poly1305 AEAD"
    ∷ utf8 "  Key at rest      : Argon2id + ChaCha20-Poly1305 (encrypted config.json)"
    ∷ utf8 "  Packet padding   : all packets fixed at 4096 B (DPI resistance)"
    ∷ utf8 "  Server model     : Blind Relay — routes encrypted noise only"
    ∷ utf8 "  Disconnect       : session keys zeroized, no auto-reconnect"
    ∷ utf8 "  Memory           : clear() on all key material at every exit path"
    ∷ []
    ∷ []
    ∷ [])

-- `version` is the build version.
unfoldable pub print_usage : Bytes → Bytes
unfolding usage_text
print_usage version = banner ++ (codes "  (" ++ (version ++ (codes ")\n" ++ usage_text)))
