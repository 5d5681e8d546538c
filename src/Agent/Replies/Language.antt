-- ===== src/Agent/Replies/Language.antt =====
-- The language of a scripted reply (src/moc/agent/replies.py).
use moreofchat.Prelude.{String, ◌≡◌, refl, true, Option, none, some, is_empty, if◌then◌else◌, arith}
use moreofchat.Result.{Result, ok, is_ok}
use moreofchat.Dict.{Dict, get}
use moreofchat.Str.{Text}
use moreofchat.Agent.State.{Register, masri, msa, english}
use moreofchat.Agent.Replies.{
  KeyError, Voice, register_key, is_lang, resolve_register, wording, or_required, scripted_reply,
  say,
}

or_required-is_ok : (chosen : Option Text) (m : Text) → is_ok (or_required chosen (ok m)) ≡ true
unfolding or_required
or_required-is_ok none m = refl
or_required-is_ok (some t) m = refl

resolve_english : (register : Register) → resolve_register register (some "en") ≡ english
unfolding resolve_register is_lang
resolve_english masri = refl
resolve_english msa = refl
resolve_english english = refl

-- The wording, or the one in Masri where there is none or an empty one.
abbrev pub wording_or : Text → Option Text → Text
wording_or m none = m
wording_or m (some t) = if is_empty t then m else t

wording-wording_or :
    (o : Option Text) (m : Text)
    → ◌≡◌ {A = Result KeyError Text} (or_required (wording o) (ok m)) (ok (wording_or m o))
unfolding wording or_required
wording-wording_or none m = refl
wording-wording_or (some t) m = ground arith

scripted_reply-english :
    (entry : Dict Text) (register : Register) (m : Text)
    → get "masri" entry ≡ some m
    → scripted_reply entry register (some "en") ≡ ok (wording_or m (get "english" entry))
unfolding scripted_reply register_key
scripted_reply-english entry register m has_masri =
    rw (resolve_english register, has_masri) (wording-wording_or (get "english" entry) m)

-- The key of a register's wording.
abbrev pub name_of : Register → String
name_of masri = "masri"
name_of msa = "msa"
name_of english = "english"

scripted_reply-register :
    (entry : Dict Text) (register : Register) (m : Text)
    → get "masri" entry ≡ some m
    → scripted_reply entry register none ≡ ok (wording_or m (get (name_of register) entry))
unfolding scripted_reply register_key resolve_register is_lang
scripted_reply-register entry masri m has_masri = rw has_masri (wording-wording_or (some m) m)
scripted_reply-register entry msa m has_masri =
    rw has_masri (wording-wording_or (get "msa" entry) m)
scripted_reply-register entry english m has_masri =
    rw has_masri (wording-wording_or (get "english" entry) m)

-- An entry with a wording in Masri, whatever else it has, answers in every register and in every
-- language, with no missing key. In a turn in English it answers with its wording in English, whatever
-- register the node declares; in a turn of unknown language with the wording of the node's register;
-- and on both with the one in Masri where that wording is absent or empty.
pub say-speaks :
    (entry : Dict Text) (voice : Voice) (m : Text)
    → get "masri" entry ≡ some m
    → (is_ok (say voice entry) ≡ true)
      × (say (record { register = voice.register; lang = some "en" }) entry
          ≡ ok (wording_or m (get "english" entry)))
      × (say (record { register = voice.register; lang = none }) entry
          ≡ ok (wording_or m (get (name_of voice.register) entry)))
unfolding say scripted_reply
say-speaks entry voice m has_masri = (
  rw has_masri (
      or_required-is_ok
        (wording (get (register_key (resolve_register voice.register voice.lang)) entry)) m),
  scripted_reply-english entry voice.register m has_masri,
  scripted_reply-register entry voice.register m has_masri,
)
