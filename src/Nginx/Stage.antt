-- ===== src/Nginx/Stage.antt =====
-- backend/src/nginx.rs: `stage` writes a file under another name and renames it; `publish_conf` does it
-- for both files.
use open_berat.Base.{
  ℕ, ◌+◌, Bool, true, false, List, ◌++◌, Option, none, some, if◌then◌else◌, Result, ok, err, Text,
  codes,
}
use open_berat.Base.Assoc.{lookup, insert, remove, text_Eq}
use open_berat.Validate.Fields.{Url}
use open_berat.Nginx.Render.{Application, render_apps_conf, render_breakglass_conf}

-- The files of the directory, by name, and the number of system calls made.
pub record Directory : Type 0 where
  pub files : List (Text × Text)
  pub calls : ℕ

-- The file system decides: a write that fails has left some content behind, and a rename happens or
-- does not.
pub record FileSystem : Type 0 where
  pub cut_short : ℕ → Option Text
  pub renames : ℕ → Bool

pub data StageError : Type 0 where
  reading_applications : StageError
  writing staging : (name : Text) → StageError

abbrev pub writing_name : Text → Text
writing_name name = name ++ codes ".writing"

abbrev pub staged_name : Text → Text
staged_name name = name ++ codes ".staged"

module _ (fs : FileSystem) where
  -- `tokio::fs::write`
  unfoldable pub write_file : (name body : Text) → Directory → Directory × Bool
  write_file name body d = elim (fs.cut_short d.calls) [
    | none ↦ (record d { files = insert name body d.files; calls = d.calls + 1 }, true)
    | some partial ↦ (record d { files = insert name partial d.files; calls = d.calls + 1 }, false)
  ]

  -- `tokio::fs::rename`
  unfoldable pub rename_file : (from to : Text) → Directory → Directory × Bool
  rename_file from to d = elim (lookup from d.files) [
    | none ↦ (record d { calls = d.calls + 1 }, false)
    | some body ↦
        if fs.renames d.calls
        then (record d { files = insert to body (remove from d.files); calls = d.calls + 1 }, true)
        else (record d { calls = d.calls + 1 }, false)
  ]

  unfoldable pub stage : (name body : Text) → Directory → Directory × Result StageError (Unit {0})
  stage name body d =
      let (d', written) = write_file (writing_name name) body d in
      let (d'', renamed) = rename_file (writing_name name) (staged_name name) d' in
      if written
      then (if renamed then (d'', ok tt) else (d'', err (staging name)))
      else (d', err (writing name))

  -- `publish_conf`; `rows` is what the query answers, `none` for an error.
  unfoldable pub publish_conf :
      (parse : Text → Option Url)
      → (portal_origin : Text) → Option (List Application)
      → Directory
      → Directory × Result StageError (Unit {0})
  publish_conf parse portal_origin none d = (d, err reading_applications)
  publish_conf parse portal_origin (some applications) d =
      let (d', first) =
        stage (codes "apps.conf") (render_apps_conf parse portal_origin applications) d in
      elim first [
        | err e ↦ (d', err e)
        | ok u ↦
            stage (codes "breakglass.apps")
              (render_breakglass_conf parse portal_origin applications) d'
      ]
