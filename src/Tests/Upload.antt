-- ===== src/Tests/Upload.antt =====
-- A publish at a concrete input.
use agentreg.Base.{bytes, none, some, [], ◌∷◌, ok, err, Error, ◌≡◌, ◌⊎◌, refl}
use agentreg.Manifest.Validate.{validate_dir}
use agentreg.Pack.Dir.{directory, regular}
use agentreg.Process.{Process, response}
use agentreg.Cli.Formats.{Formats}
use agentreg.Cli.Publish.{cmd_publish}
use agentreg.Cli.Uploaded.{IsUploaded, cmd_publish-IsUploaded}
use agentreg.Tests.Cli.{toy, client}
use agentreg.Tests.Manifest.{validators}

-- A client that is logged in, and a directory with one file to pack.
abbrev uploading : Formats
uploading = record toy {
  decode_config =
      λ b. some (record { registry = b; username = bytes "ada"; token = bytes "t0ken" });
  validators = validators;
  archiver = record {
    walk = λ d p.
        (record {
          rel = bytes ".";
          kind = directory;
          mode = 493;
          content = [];
          stat_error = none;
          read_error = none;
        }
          ∷ record {
            rel = bytes "plugin.json";
            kind = regular;
            mode = 420;
            content = bytes "{}";
            stat_error = none;
            read_error = none;
          }
          ∷ []);
    tar = λ items. bytes "tar";
    sha256 = λ b. b;
  };
}

abbrev author : Process
author = record client {
  replies = response 201 (bytes "") none ∷ [];
  disk = record client.disk {
    files =
        (bytes "plugin.json", record { mode = 420; content = bytes "{}" })
        ∷ (bytes "skills/s/SKILL.md", record { mode = 420; content = bytes "#" })
        ∷ client.disk.files;
  };
}

upload_run : (cmd_publish uploading [] author).0 ≡ ok tt
unfolding cmd_publish validate_dir
upload_run = refl

cmd_publish-IsUploaded_example :
    (((cmd_publish uploading [] author).1.requests ≡ [])
      × ((e : Error) × ((cmd_publish uploading [] author).0 ≡ err e)))
    ⊎ IsUploaded uploading author (bytes ".") (cmd_publish uploading [] author).1.requests
cmd_publish-IsUploaded_example = cmd_publish-IsUploaded uploading author []
