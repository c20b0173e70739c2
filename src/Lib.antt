-- ===== src/Lib.antt =====
-- The emoji palette for Fcitx 5: an addon in the input method and a helper that shows the palette,
-- which talk to each other in frames over the bus. The addon commits what the helper selects.
--
-- Prelude (Tests, Lists, Int, Bits)  shared names, Boolean tests, lists, signed integers, bit operations
-- Utf8 (Decode, Single, RoundTrip)   src/core/utf8.cpp: decodeUtf8, isValidUtf8, encodeUtf8
-- Text (Normalize, Hex)              src/core/utf8.cpp: normalizeForSearch, hexEncode, hexDecode
-- Protocol                           include/emoji_palette/ipc/protocol.hpp: the messages
-- Codes (Values), Writer, Reader     src/ipc/protocol.cpp: the fields and payloads of a frame; below
--                                    Reader, Integers to Sound prove that both sides agree on them
-- Frame (Header, RoundTrip)          src/ipc/protocol.cpp: serialize, parse, negotiate
-- Transaction (RoundTrip)            src/ipc/protocol.cpp: the text form of a transaction identifier
-- Session (Handshake, Order, Opening) src/ipc/session.cpp: PeerSession, ReconnectBackoff, SequenceValidator
-- Selection (Safety, Once)           src/runtime/selection_controller.cpp: SelectionController
-- Sort (Members)                     std::stable_sort, by insertion
-- State (Favorites, Recents)         src/core/state.cpp: toggleFavorite, recordUse
-- State.Decimal, State.File          src/core/state.cpp: parseNumber, parseState, serialize, load; the lines
--                                    of a file (Lines, Fields), reading back what was written (RoundTrip)
--                                    and writing what was read (Stored, Size)
-- Catalog (Ranking, Hits, Best, Score) src/model/catalog.cpp: EmojiCatalog
-- Router (SearchText)                src/addon/key_router.cpp: ActiveKeyRouter::route
-- Shortcut (Expected, Physical)      src/addon/shortcut_matcher.cpp: ShortcutMatcher
-- Keyboard (Bounds, Effects)         src/core/keyboard.cpp: KeyboardState
-- Geometry (Fits)                    src/core/geometry.cpp: placePopup
-- Glyph (Missing)                    src/core/glyph_coverage.cpp: inspectGlyphCoverage, missingGlyphLabel
-- Addon (Events, Random)             src/addon/emoji_palette_addon.cpp: EmojiPaletteAddon, its transaction
--                                    and its handlers; Closure, Origin, Commits and Silent prove what
--                                    holds through every handler
-- Helper (Trace)                     src/ui/palette_session.cpp: PaletteSession
-- ListModel (Shown, Cache)           src/ui/emoji_list_model.cpp: EmojiListModel
-- Window (Commands)                  src/ui/palette_window.cpp: PaletteWindow; Moves, Fresh and Steps on
--                                    what it shows, Known and Offers on what it asks to commit
-- Link (Frames, Routes, InStep, Reacts, Keys, Pick)
--                                    the addon and the helper together, from the keys of the user to the
--                                    commands of the window and from a choice to the commit
-- Tests                              runs of definitions and theorems at concrete inputs
--
-- A string or a frame is a list of bytes, a byte a natural number; All IsByte says that each is below
-- 256. A class is a record of its fields and a method a function from the record to the result and the
-- new record. The position of the Reader is what is left of the bytes, and the error that readPayload
-- gets by reference is a field of it. An unsigned field of a message keeps its width in IsTyped; the
-- arithmetic of std::size_t and of the counters is written out modulo 2 ^ 64 and 2 ^ 32. The integers
-- of the popup geometry and of the search scores are unbounded: the overflow of int is not modelled.
--
-- decodeUtf8 runs on fuel, the length of the string: every step takes at least one byte. All other
-- loops are structural recursion on a list or on a width.
--
-- The drawing of an identifier and of a nonce runs on fuel too, one unit for a round; the digits of
-- a number of a state file on 20, which is enough for 64 bits, and those of the label of a code point on
-- 8, which is enough for 32. The loop over the keycodes of a keymap has the number of the codes as its
-- fuel, which is enough where the range is not empty.
--
-- Parameters: the generated emoji table is the argument of build; what an input context answers is
-- the record Context, and a call of commit is an entry of the list commits; the font probe is an
-- argument of inspectGlyphCoverage; KeyEvent is what the input method library and the shortcut
-- matchers answer for a key; Library is what that library's keys and the keymaps of xkbcommon are to a
-- shortcut matcher. Environment is what the framework, the bus, the process environment and
-- the random device answer in the course of one event of the addon, and Surroundings what the viewport
-- and the clock answer the window. The helper's session and the window are modelled apart: Reactions is
-- what the window emits while it handles a command of the session, as the slots then run before
-- handleCommand returns, and a click is an event of its own. The frames that the addon sends, the effects of the helper's session
-- and the signals of the window are lists in their states, the latest first. A text of Qt is its UTF-8
-- bytes. The standard library's stable sort is modelled by insertion, its sets by the lists of their
-- members.
--
-- Not modelled: the registration of the addon's handlers and its configuration file, the system calls
-- that read and write the state file (src/core/state.cpp), the layout, the painting, the texts and the
-- place of the window and the roles of the list model (src/ui), the font queries and the entry point,
-- the generated table, the build, the packaging and the data tool.
pub mod Prelude
pub mod Utf8
pub mod Text
pub mod Transaction
pub mod Protocol
pub mod Codes
pub mod Writer
pub mod Reader
pub mod Frame
pub mod Addon
pub mod Link
pub mod ListModel
pub mod Window
pub mod Helper
pub mod Keyboard
pub mod Geometry
pub mod Glyph
pub mod Session
pub mod Shortcut
pub mod Sort
pub mod Catalog
pub mod Router
pub mod Selection
pub mod State
pub mod Tests
