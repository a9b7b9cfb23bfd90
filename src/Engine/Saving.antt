-- ===== src/Engine/Saving.antt =====
-- engine/callmedia.go: when the recording of a call is saved (`useMedia`, `MarkFailed`, `autoSave`).
pub mod Once
use xk6_sip.Common.{
  ℕ, ◌+◌, Bool, true, false, not, ◌&&◌, ◌||◌, Option, none, some, [], ◌∷◌, if◌then◌else◌, ◌==◌,
}
use xk6_sip.Common.Text.{Text, codes, is_empty}
use xk6_sip.Engine.Call.{
  Call, EndedBy, by_error, by_local, by_remote, by_timeout, is_ended, is_some,
}

pub data RecordMode : Type 0 where
  off always on_failure : RecordMode

abbrev pub is_always : RecordMode → Bool
is_always off = false
is_always always = true
is_always on_failure = false

abbrev pub is_on_failure : RecordMode → Bool
is_on_failure off = false
is_on_failure always = false
is_on_failure on_failure = true

-- The fields of a call that decide; `writes` counts the files that were asked for.
pub record Saving : Type 0 where
  pub has_media : Bool
  pub rec_mode : RecordMode
  pub rec_dir : Text
  pub failed : Bool
  pub saved : Bool
  pub writes : ℕ

unfoldable pub use_media : RecordMode → Text → Saving
use_media mode dir = record {
  has_media = true;
  rec_mode = mode;
  rec_dir = if is_on_failure mode && is_empty dir then codes "recordings" else dir;
  failed = false;
  saved = false;
  writes = 0;
}

abbrev pub is_error : Option EndedBy → Bool
is_error (some by_error) = true
is_error (some by_local) = false
is_error (some by_remote) = false
is_error (some by_timeout) = false
is_error none = false

-- `want`: what the record mode asks for.
unfoldable pub is_wanted : Call → Saving → Bool
is_wanted c s =
    is_always s.rec_mode
    || is_on_failure s.rec_mode && (s.failed || is_error c.ended_by && is_some c.t_answer)

unfoldable pub auto_save : Call → Saving → Saving
unfolding is_wanted
auto_save c s =
    if not s.has_media || is_empty s.rec_dir
    then s
    else if not (is_wanted c s) || s.saved || not (is_ended c)
    then s
    else record s { saved = true; writes = s.writes + 1 }

unfoldable pub mark_failed : Call → Saving → Saving
unfolding auto_save
mark_failed c s =
    let s' : Saving = record s { failed = true } in if is_ended c then auto_save c s' else s'
