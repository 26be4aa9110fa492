-- ===== src/Onboard/Russian.antt =====
-- internal/onboard/onboard.go: the texts of the Russian guide.
use road.Base.{List, [], ◌∷◌, Bytes, utf8}
use road.Onboard.Console.{unlines}

unfoldable pub banner_ru : Bytes
banner_ru = unlines (
    []
    ∷ utf8 "  ╔══════════════════════════════════════════════════════════════════════╗"
    ∷ utf8 "  ║        road-1337 · Руководство по безопасности и первый запуск       ║"
    ∷ utf8 "  ╚══════════════════════════════════════════════════════════════════════╝"
    ∷ [])

unfoldable pub section_1_ru : Bytes
section_1_ru = unlines (
    utf8 "  ── Что такое road-1337? ────────────────────────────────────────────────"
    ∷ []
    ∷ utf8 "  road-1337 — это консольный мессенджер со сквозным шифрованием (E2EE)"
    ∷ utf8 "  на базе архитектуры \"Слепой ретранслятор\" (Blind Relay)."
    ∷ []
    ∷ utf8 "  Сервер пересылает зашифрованные пакеты между участниками."
    ∷ utf8 "  Он видит ТОЛЬКО зашифрованный шум — никогда не видит сообщения и ключи."
    ∷ utf8 "  Нет центрального сервера. Нет аккаунта. Нет базы данных."
    ∷ [])

unfoldable pub section_2_ru : Bytes
section_2_ru = unlines (
    utf8 "  ── Как работает анонимность? ───────────────────────────────────────────"
    ∷ []
    ∷ utf8 "  1. КРИПТОГРАФИЯ"
    ∷ utf8 "     • X25519 — обмен ключами на эллиптических кривых."
    ∷ utf8 "     • HKDF-SHA256 — деривация сессионного ключа из DH-секрета."
    ∷ utf8 "     • ChaCha20-Poly1305 AEAD — шифрование каждого пакета с аутентификацией."
    ∷ utf8 "     • Все пакеты выравнивются до ровно 4096 байт — DPI не видит размер сообщения."
    ∷ []
    ∷ utf8 "  2. СЛЕПОЙ РЕТРАНСЛЯТОР"
    ∷ utf8 "     • Сервер маршрутизирует по SHA-256(publicKey получателя)."
    ∷ utf8 "     • Ничего не хранит. Только RAM. Логи отключены."
    ∷ utf8 "     • Буферы зануляются (clear()) после каждой пересылки — защита от cold-boot."
    ∷ []
    ∷ utf8 "  3. ВНЕПОЛОСНЫЙ ОБМЕН КЛЮЧАМИ"
    ∷ utf8 "     • Ты передаёшь публичный ключ собеседнику ВНЕ road-1337"
    ∷ utf8 "       (через Signal, лично, на бумаге, и т.д.)"
    ∷ utf8 "     • Сервер не участвует в обмене ключами."
    ∷ utf8 "     • Атака Man-in-the-Middle невозможна при правильном обмене ключами."
    ∷ [])

unfoldable pub section_3_ru : Bytes
section_3_ru = unlines (
    utf8 "  ── Операционная безопасность (OpSec) — ПРОЧИТАЙ ───────────────────────"
    ∷ []
    ∷ utf8 "  ⚠  road-1337 защищает СОДЕРЖИМОЕ твоих сообщений при передаче."
    ∷ utf8 "     Он НЕ защищает твою ЛИЧНОСТЬ и твоё УСТРОЙСТВО."
    ∷ []
    ∷ utf8 "  Для максимальной анонимности сочетай road-1337 с:"
    ∷ []
    ∷ utf8 "  1. ПОЛНОДИСКОВОЕ ШИФРОВАНИЕ"
    ∷ utf8 "     macOS   → включи FileVault  (Системные настройки → Конфиденциальность)"
    ∷ utf8 "     Windows → включи BitLocker  (Панель управления → BitLocker)"
    ∷ utf8 "     Linux   → LUKS при установке"
    ∷ []
    ∷ utf8 "  2. ЗАПИШИ ПРИВАТНЫЙ КЛЮЧ НА БУМАГУ"
    ∷ utf8 "     После генерации на экране появится твой ПУБЛИЧНЫЙ ключ."
    ∷ utf8 "     ПРИВАТНЫЙ ключ хранится в:"
    ∷ utf8 "       Linux/macOS  → ~/.config/road-1337/private.key"
    ∷ utf8 "       Windows      → %APPDATA%\\road-1337\\private.key"
    ∷ []
    ∷ utf8 "     ЗАПИШИ ПРИВАТНЫЙ КЛЮЧ НА БУМАГУ И ХРАНИ В НАДЁЖНОМ МЕСТЕ."
    ∷ utf8 "     Если диск сломается или сменишь устройство — это ЕДИНСТВЕННЫЙ"
    ∷ utf8 "     способ восстановить свою идентичность. Сервиса восстановления нет."
    ∷ []
    ∷ utf8 "  3. СЕТЕВОЙ УРОВЕНЬ"
    ∷ utf8 "     road-1337 шифрует содержимое, но не метаданные (IP-адреса)."
    ∷ utf8 "     For IP anonymity, tunnel through:"
    ∷ utf8 "       • Tor (torsocks road-1337 ...)"
    ∷ utf8 "       • VLESS/Reality прокси"
    ∷ utf8 "       • Доверенный VPN"
    ∷ []
    ∷ utf8 "  4. ВЕРИФИЦИРУЙ КЛЮЧИ ЛИЧНО (или через другой защищённый канал)"
    ∷ utf8 "     Если ты не можешь проверить публичный ключ собеседника вне системы,"
    ∷ utf8 "     злоумышленник может выдать себя за него. Всегда верифицируй перед общением."
    ∷ []
    ∷ utf8 "  5. /EXIT В КОНЦЕ КАЖДОЙ СЕССИИ"
    ∷ utf8 "     Команда /exit зануляет сессионные ключи в RAM. Ctrl+C тоже зануляет."
    ∷ utf8 "     Никогда не закрывай терминал без явного выхода из сессии."
    ∷ [])

unfoldable pub section_4_ru : Bytes
section_4_ru = unlines (
    utf8 "  ── Отказ от ответственности ────────────────────────────────────────────"
    ∷ []
    ∷ utf8 "  road-1337 — программное обеспечение с открытым исходным кодом,"
    ∷ utf8 "  предоставляемое \"КАК ЕСТЬ\" (AS IS)."
    ∷ []
    ∷ utf8 "  ИСПОЛЬЗОВАТЬ НА СВОЙ СТРАХ И РИСК. Разработчик НЕ ГАРАНТИРУЕТ:"
    ∷ utf8 "     • Полную анонимность во всех моделях угроз."
    ∷ utf8 "     • Защиту от атак на уровне государственных структур."
    ∷ utf8 "     • Безошибочную работу во всех окружениях."
    ∷ []
    ∷ utf8 "  Ты несёшь ответственность за собственную операционную безопасность."
    ∷ utf8 "  При работе в условиях высокого уровня угроз — проконсультируйся"
    ∷ utf8 "  with a professional security researcher."
    ∷ [])

abbrev pub sections_ru : List Bytes
sections_ru = section_1_ru ∷ section_2_ru ∷ section_3_ru ∷ section_4_ru ∷ []

-- Each is printed on a line of its own.
unfoldable pub setup_ru : List Bytes
setup_ru =
    utf8 "  ── Настройка ───────────────────────────────────────────────────────────"
    ∷ []
    ∷ utf8 "  Сейчас будет сгенерирована новая пара ключей X25519."
    ∷ utf8 "  Приватный ключ будет сохранён с правами 0600 (только владелец)."
    ∷ []
    ∷ utf8 "  После генерации передай ПУБЛИЧНЫЙ ключ собеседнику"
    ∷ utf8 "  через безопасный внеполосный канал."
    ∷ []
    ∷ []

unfoldable pub continue_ru : Bytes
continue_ru = utf8 " Нажми Enter для продолжения..."

unfoldable pub generate_ru : Bytes
generate_ru = utf8 "  Нажми Enter для генерации ключевой пары..."
