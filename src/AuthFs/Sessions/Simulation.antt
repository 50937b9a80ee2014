-- ===== src/AuthFs/Sessions/Simulation.antt =====
-- The handlers of authfs/src/fusefs.rs that change files do to the trees what their requests do to the
-- contents.
use mathlib.Core.Path.{subst}
use android_packages_modules.Common.{
  ℕ, ◌^◌, ◌<◌, ◌≡◌, ◌⊎◌, refl, sym, ap, some, List, [], ◌∷◌, Outcome, ok, err, panic, stuck, Bool,
  true, false, ◌==◌, if◌then◌else◌, arith, All, Bool-cases, Option-cases, inl, inr,
}
use android_packages_modules.Crypto.{Sha256Ffi}
use android_packages_modules.Crypto.Digest.{IsSha256, Collision}
use android_packages_modules.File.{IoError, ReadByChunk, RandomWrite}
use android_packages_modules.Handles
use android_packages_modules.Fsverity.Editor.{VerifiedFileEditor}
use android_packages_modules.Fsverity.Editor
use android_packages_modules.Fsverity.Editor.AnyStorage.{EndsBy, resize-Resized}
use android_packages_modules.Fsverity.Editor.Content.{Content}
use android_packages_modules.Fsverity.Editor.Tracks.{Tracks}
use android_packages_modules.Fsverity.Editor.Write.{write_at-Wrote}
use android_packages_modules.Fsverity.Verifier.Binding.{KeepsLength}
use android_packages_modules.AuthFs.{
  AuthFs, FileConfig, Stat, read_write, create_stat, local_verified_readonly_file,
  local_unverified_readonly_file, remote_verified_readonly_file, remote_unverified_readonly_file,
  remote_verified_new_file,
}
use android_packages_modules.AuthFs.Update.{
  SetattrValid, write_editor, write_config, write_file, put_editor, unsupported, after_size,
  set_editor, set_config, setattr,
}
use android_packages_modules.AuthFs.Sessions.{
  Call, write, set_attributes, Reply, wrote, attributes, Small, Contents, replace, Effect, written,
  not_written, resized, not_resized, Effects, no_more, and_then, Follows, serve, serve_all,
}

module _ {L R T E : Type 0} where
  module _ {Ctx : Type 0} {ffi : Sha256Ffi Ctx} {digest : List ℕ → List ℕ}
      (sha : IsSha256 ffi digest) (local : ReadByChunk L) (remote : ReadByChunk R)
      (tree : ReadByChunk T) (backing : ReadByChunk E) (wr : RandomWrite E)
      (keeps : KeepsLength backing) where
    -- A request with its reply goes on as the contents do.
    abbrev Simulated : Call → Contents → Reply × AuthFs L R T E → Type 0
    Simulated request contents (reply, self) =
        ((after : Contents) × Effect request reply contents after × Follows digest self after)
        ⊎ Collision digest

    put_editor-Follows :
        (self : AuthFs L R T E) (inode : ℕ) (editor : VerifiedFileEditor E) (contents : Contents)
        (g : Content)
        → Follows digest self contents
        → Tracks digest g editor.merkle_tree
        → Follows digest (put_editor self inode editor) (replace contents inode g)
    put_editor-Follows self inode editor contents g all new i other at =
        elim (Bool-cases (inode == i)) [
          | inl here ↦
              let same : editor ≡ other = ground arith in
              rw here (subst (λ (e : VerifiedFileEditor E). Tracks digest g e.merkle_tree) same new)
          | inr away ↦ rw away (all i other (ground arith))
        ]

    write_editor-Simulated :
        (self : AuthFs L R T E) (contents : Contents) (inode : ℕ) (editor : VerifiedFileEditor E)
        (offset : ℕ) (buf : Outcome IoError (List ℕ))
        → Small (write inode buf offset)
        → Handles.get self.file_pool inode ≡ some (remote_verified_new_file editor)
        → Follows digest self contents
        → let reply = write_editor ffi local remote tree backing wr self inode editor offset buf in
          Simulated (write inode buf offset) contents (wrote reply.0, reply.1)
    write_editor-Simulated self contents inode editor offset (ok bytes) small at all =
        elim (write_at-Wrote sha backing wr (contents inode) bytes offset editor (small bytes refl)
          (all inode editor at)) [
            | inl (n, le, new, count) ↦
                inl (_, written n le count, put_editor-Follows self inode _ contents _ all new)
            | inr collision ↦ inr collision
          ]
    write_editor-Simulated self contents inode editor offset (err e) small at all =
        inl (contents, not_written (λ m h. cc h), all)
    write_editor-Simulated self contents inode editor offset panic small at all =
        inl (contents, not_written (λ m h. cc h), all)
    write_editor-Simulated self contents inode editor offset stuck small at all =
        inl (contents, not_written (λ m h. cc h), all)

    write_config-Simulated :
        (self : AuthFs L R T E) (contents : Contents) (inode : ℕ) (buf : Outcome IoError (List ℕ))
        (offset : ℕ) (config : FileConfig L R T E)
        → Small (write inode buf offset)
        → Handles.get self.file_pool inode ≡ some config
        → Follows digest self contents
        → let reply = write_config ffi local remote tree backing wr self inode buf offset config in
          Simulated (write inode buf offset) contents (wrote reply.0, reply.1)
    write_config-Simulated self contents inode buf offset (remote_verified_new_file editor) s at
          all =
        write_editor-Simulated self contents inode editor offset buf s at all
    write_config-Simulated self contents inode buf offset (local_verified_readonly_file r n) s at
          all =
        inl (contents, not_written (λ m h. cc h), all)
    write_config-Simulated self contents inode buf offset (local_unverified_readonly_file r n) s at
          all =
        inl (contents, not_written (λ m h. cc h), all)
    write_config-Simulated self contents inode buf offset (remote_verified_readonly_file r n) s at
          all =
        inl (contents, not_written (λ m h. cc h), all)
    write_config-Simulated self contents inode buf offset (remote_unverified_readonly_file r n) s at
          all =
        inl (contents, not_written (λ m h. cc h), all)

    -- The size is set, whatever becomes of the other attributes.
    after_size-Follows :
        (self : AuthFs L R T E) (contents : Contents) (inode : ℕ) (valid : SetattrValid) (st : Stat)
        (g : Content) (r : Outcome IoError (Unit {0}) × VerifiedFileEditor E)
        → Follows digest self contents
        → Tracks digest g r.1.merkle_tree
        → Follows digest
            (after_size ffi local remote tree backing wr self inode valid st r).1
            (replace contents inode g)
    after_size-Follows self contents inode valid st g (ok u, editor) all new =
        put_editor-Follows self inode editor contents g all new
    after_size-Follows self contents inode valid st g (err e, editor) all new =
        put_editor-Follows self inode editor contents g all new
    after_size-Follows self contents inode valid st g (panic, editor) all new =
        put_editor-Follows self inode editor contents g all new
    after_size-Follows self contents inode valid st g (stuck, editor) all new =
        put_editor-Follows self inode editor contents g all new

    -- A reply with a stat is the one of the new size, after a resize that succeeded.
    after_size-ok :
        (self : AuthFs L R T E) (inode : ℕ) (valid : SetattrValid) (st : Stat) (g : Content)
        (r : Outcome IoError (Unit {0}) × VerifiedFileEditor E)
        → (r.0 ≡ ok tt → EndsBy st.st_size g)
        → (stat : Stat)
        → (after_size ffi local remote tree backing wr self inode valid st r).0 ≡ ok stat
        → (stat.st_size ≡ st.st_size) × EndsBy st.st_size g
    after_size-ok self inode valid st g (ok u, editor) ends stat h =
        let same : st ≡ stat = ground arith in (ap (λ (s : Stat). s.st_size) (sym same), ends refl)
    after_size-ok self inode valid st g (err e, editor) ends stat h = absurd (cc h)
    after_size-ok self inode valid st g (panic, editor) ends stat h = absurd (cc h)
    after_size-ok self inode valid st g (stuck, editor) ends stat h = absurd (cc h)

    sized-Simulated :
        (self : AuthFs L R T E) (contents : Contents) (inode size : ℕ) (valid : SetattrValid)
        (editor : VerifiedFileEditor E) (st : Stat) (sized : Bool)
        → valid.size ≡ sized
        → size < 2 ^ 63
        → Handles.get self.file_pool inode ≡ some (remote_verified_new_file editor)
        → Follows digest self contents
        → let reply =
            if sized
            then after_size ffi local remote tree backing wr self inode valid
                (record st { st_size = size })
                (Editor.resize ffi backing wr editor size)
            else (unsupported ffi local remote tree backing wr valid st, self) in
          Simulated (set_attributes inode size valid) contents (attributes reply.0, reply.1)
    sized-Simulated self contents inode size valid editor st true e small at all =
        let (g, new, same, ends) =
          resize-Resized sha backing wr keeps (contents inode) editor size small
            (all inode editor at) in
        inl (
          replace contents inode g,
          resized g e same (
              after_size-ok self inode valid (record st { st_size = size }) g
                (Editor.resize ffi backing wr editor size) ends),
          after_size-Follows self contents inode valid (record st { st_size = size }) g
              (Editor.resize ffi backing wr editor size) all new,
        )
    sized-Simulated self contents inode size valid editor st false e small at all =
        inl (contents, not_resized (λ s stat h. absurd (cc (s, e))), all)

    set_editor-Simulated :
        (self : AuthFs L R T E) (contents : Contents) (inode size : ℕ) (valid : SetattrValid)
        (editor : VerifiedFileEditor E) (stat : Outcome IoError Stat)
        → size < 2 ^ 63
        → Handles.get self.file_pool inode ≡ some (remote_verified_new_file editor)
        → Follows digest self contents
        → let reply =
            set_editor ffi local remote tree backing wr self inode size valid editor stat in
          Simulated (set_attributes inode size valid) contents (attributes reply.0, reply.1)
    set_editor-Simulated self contents inode size valid editor (ok st) small at all =
        sized-Simulated self contents inode size valid editor st valid.size refl small at all
    set_editor-Simulated self contents inode size valid editor (err e) small at all =
        inl (contents, not_resized (λ s st h. cc h), all)
    set_editor-Simulated self contents inode size valid editor panic small at all =
        inl (contents, not_resized (λ s st h. cc h), all)
    set_editor-Simulated self contents inode size valid editor stuck small at all =
        inl (contents, not_resized (λ s st h. cc h), all)

    set_config-Simulated :
        (self : AuthFs L R T E) (contents : Contents) (inode size : ℕ) (valid : SetattrValid)
        (config : FileConfig L R T E)
        → size < 2 ^ 63
        → Handles.get self.file_pool inode ≡ some config
        → Follows digest self contents
        → let reply = set_config ffi local remote tree backing wr self inode size valid config in
          Simulated (set_attributes inode size valid) contents (attributes reply.0, reply.1)
    set_config-Simulated self contents inode size valid (remote_verified_new_file editor) s at all =
        set_editor-Simulated self contents inode size valid editor
          (create_stat inode (Editor.size editor) read_write) s at all
    set_config-Simulated self contents inode size valid (local_verified_readonly_file r n) s at
          all =
        inl (contents, not_resized (λ s st h. cc h), all)
    set_config-Simulated self contents inode size valid (local_unverified_readonly_file r n) s at
          all =
        inl (contents, not_resized (λ s st h. cc h), all)
    set_config-Simulated self contents inode size valid (remote_verified_readonly_file r n) s at
          all =
        inl (contents, not_resized (λ s st h. cc h), all)
    set_config-Simulated self contents inode size valid (remote_unverified_readonly_file r n) s at
          all =
        inl (contents, not_resized (λ s st h. cc h), all)

    serve-Simulated :
        (request : Call) (self : AuthFs L R T E) (contents : Contents)
        → Small request
        → Follows digest self contents
        → Simulated request contents (serve ffi local remote tree backing wr request self)
    unfolding write_file setattr
    serve-Simulated (write inode buf offset) self contents small all =
        elim (Option-cases (Handles.get self.file_pool inode)) [
          | inl gone ↦ rw (gone, write_file) (inl (contents, not_written (λ m h. cc h), all))
          | inr (config, at) ↦
              rw (at, write_file)
                (write_config-Simulated self contents inode buf offset config small at all)
        ]
    serve-Simulated (set_attributes inode size valid) self contents small all =
        elim (Option-cases (Handles.get self.file_pool inode)) [
          | inl gone ↦ rw (gone, setattr) (inl (contents, not_resized (λ s st h. cc h), all))
          | inr (config, at) ↦
              rw (at, setattr)
                (set_config-Simulated self contents inode size valid config small at all)
        ]

    pub serve_all-Effects :
        (requests : List Call) (self : AuthFs L R T E) (contents : Contents)
        → All Small requests
        → Follows digest self contents
        → let (replies, self') = serve_all ffi local remote tree backing wr requests self in
          ((after : Contents) × Effects requests replies contents after
            × Follows digest self' after)
          ⊎ Collision digest
    serve_all-Effects [] self contents small all = inl (contents, no_more, all)
    serve_all-Effects (request ∷ requests) self contents small all =
        elim (serve-Simulated request self contents small.0 all) [
          | inl (between, effect, all') ↦
              elim (serve_all-Effects requests
                (serve ffi local remote tree backing wr request self).1 between small.1 all') [
                  | inl (after, effects, all'') ↦ inl (after, and_then effect effects, all'')
                  | inr collision ↦ inr collision
                ]
          | inr collision ↦ inr collision
        ]
