-- ===== src/ListModel/Cache.antt =====
-- src/ui/emoji_list_model.cpp: the cache of glyph coverages.
use fcitx5_emoji_palette.Prelude.{
  some, List, [], ◌∷◌, Bytes, All, equal, equal_iff, ◌≡◌, refl, sym, ap, ◌∙◌, inl, inr, Bool-cases,
  Option-cases,
}
use fcitx5_emoji_palette.Catalog.{EmojiRecord}
use fcitx5_emoji_palette.Glyph.{GlyphCoverage, GlyphProbe, inspect_glyph_coverage}
use fcitx5_emoji_palette.ListModel.{
  EmojiListModel, cached, coverage_of, coverage_for, set_glyph_probe, refresh_system_glyph_probe,
}

-- Each value of the cache is the coverage of its key under the present probe.
abbrev pub IsCoherent : EmojiListModel → Type 0
IsCoherent m =
    All (λ (p : Bytes × GlyphCoverage). p.1 ≡ inspect_glyph_coverage p.0 m.probe) m.coverage

-- The calls that touch the cache.
pub data Call : Type 0 where
  asks : EmojiRecord → Call
  sets_probe : GlyphProbe → GlyphProbe → Call
  refreshes : GlyphProbe → Call

abbrev pub run_call : Call → EmojiListModel → EmojiListModel
run_call (asks e) m = (coverage_of e m).1
run_call (sets_probe system probe) m = set_glyph_probe system probe m
run_call (refreshes system) m = refresh_system_glyph_probe system m

abbrev pub run_calls : List Call → EmojiListModel → EmojiListModel
run_calls [] m = m
run_calls (c ∷ cs) m = run_calls cs (run_call c m)

cached-IsCoherent :
    (q : Bytes) (probe : GlyphProbe) (cs : List (Bytes × GlyphCoverage)) {v : GlyphCoverage}
    → All (λ (p : Bytes × GlyphCoverage). p.1 ≡ inspect_glyph_coverage p.0 probe) cs
    → cached q cs ≡ some v
    → v ≡ inspect_glyph_coverage q probe
unfolding cached
cached-IsCoherent q probe [] a e = absurd (cc e)
cached-IsCoherent q probe ((k, w) ∷ cs) {v} a e = elim (Bool-cases (equal k q)) [
  | inl h ↦
      let s : w ≡ v = cc (e, h) in
      sym s ∙ a.0 ∙ ap (λ x. inspect_glyph_coverage x probe) ((equal_iff k q).0 h)
  | inr h ↦ cached-IsCoherent q probe cs a.1 (rw h at e)
]

coverage_of-IsCoherent :
    (e : EmojiRecord) (m : EmojiListModel)
    → IsCoherent m
    → ((coverage_of e m).0 ≡ coverage_for e.sequence m) × IsCoherent (coverage_of e m).1
unfolding coverage_of coverage_for
coverage_of-IsCoherent e m a = elim (Option-cases (cached e.sequence m.coverage)) [
  | inl n ↦ rw (n, coverage_of) (refl, (refl, a))
  | inr (v, h) ↦ rw (h, coverage_of) (cached-IsCoherent e.sequence m.probe m.coverage a h, a)
]

run_call-IsCoherent : (c : Call) (m : EmojiListModel) → IsCoherent m → IsCoherent (run_call c m)
unfolding set_glyph_probe refresh_system_glyph_probe
run_call-IsCoherent (asks e) m a = (coverage_of-IsCoherent e m a).1
run_call-IsCoherent (sets_probe system probe) m a = tt
run_call-IsCoherent (refreshes system) m a = elim (Bool-cases m.uses_system_probe) [
  | inl h ↦ rw (h, refresh_system_glyph_probe) tt
  | inr h ↦ rw (h, refresh_system_glyph_probe) a
]

run_calls-IsCoherent :
    (cs : List Call) (m : EmojiListModel) → IsCoherent m → IsCoherent (run_calls cs m)
run_calls-IsCoherent [] m a = a
run_calls-IsCoherent (c ∷ cs) m a =
    run_calls-IsCoherent cs (run_call c m) (run_call-IsCoherent c m a)

-- Whatever coverages were asked for and whatever probes were set in between, from an empty cache, the
-- cached coverage of a record is the one that the present probe gives.
pub coverage_of-run_calls :
    (cs : List Call) (e : EmojiRecord) (m : EmojiListModel)
    → m.coverage ≡ []
    → (coverage_of e (run_calls cs m)).0 ≡ coverage_for e.sequence (run_calls cs m)
coverage_of-run_calls cs e m h =
    let a : IsCoherent m = empty m.coverage h in
    (coverage_of-IsCoherent e _ (run_calls-IsCoherent cs m a)).0
  where
    empty :
        (l : List (Bytes × GlyphCoverage))
        → l ≡ []
        → All (λ (p : Bytes × GlyphCoverage). p.1 ≡ inspect_glyph_coverage p.0 m.probe) l
    empty [] q = tt
    empty (x ∷ l) q = absurd (cc q)
