-- ===== src/System/Examples.antt =====
-- newland/src/system.c with one process, whose descriptor 0 is open, over a file and its directory.
use stardustos.Prelude.{
  List, Option, Ret, [], arith, as_size, codes, eio, enoent, errno_code, failed, false,
  if◌then◌else◌, none, refl, replicate, some, str_eq, true, value, ℕ, ◌-◌, ◌==◌, ◌∷◌, ◌≡◌,
}
use stardustos.Libc.Libgen.{dirname}
use stardustos.Fs.Mounts.{fs_resolve, resolve_mount}
use stardustos.Slist.{find}
use stardustos.Fs.{
  Fd, Node, Tables, fs_node_file, fs_node_resolve, fs_node_type_get, has_prefix, mode_of,
  skip_slash,
}
use stardustos.Proc.{Proc, Procs, process_curr, process_frompid, running, sched_reccount}
use stardustos.System.{
  bad_fd, clear_fd, closed, free_from, nl_close, nl_open, nl_write, opened, store,
}
use stardustos.System.Descriptors.{IsLowest, nl_open-IsLowest, nl_write_rewinds}
use stardustos.Fs.Files.{fs_node_close, fs_node_open, fs_node_write}

abbrev bin : List ℕ
bin = codes "bin"

-- Node 0 is a directory with the file 1, whose driver fails to write.
abbrev get_kid : ℕ → ℕ → ℕ → Ret × Option ℕ × ℕ
get_kid w n i = if i == 0 then (value 0, some 1, w) else (failed enoent, none, w)

abbrev tree : ℕ → ℕ → Node ℕ
tree w n = record {
  name = bin;
  mode = mode_of fs_node_file;
  size = 0;
  opts = record {
    open_node = none;
    close_node = none;
    get_child = some get_kid;
    read = some (λ w n offset size. (0, [], w));
    write = some (λ w n offset buff. (as_size (failed eio), w));
    ioctl = none;
  };
}

abbrev mounts : Tables ℕ
mounts = record {
  filesystems = [];
  filesystem_count = 0;
  mountpoints = record { rootnode = some 0; fsname = []; source = []; target = []; flags = 0 } ∷ [];
  mp_count = 1;
}

abbrev used_fd : Fd ℕ
used_fd = record { node = some 1; gid = 0; uid = 0; pid = 1; offset = 100; mode = 0 }

abbrev shell : Proc ℕ
shell = record {
  id = 1;
  name = codes "sh";
  cwd = codes "/";
  tty = codes "tty0";
  stack = 65536;
  status = running;
  isuser = true;
  issignaling = false;
  signum = 0;
  esp = 81920;
  cr3 = 0;
  signal_handler = false;
  fd = used_fd ∷ closed ∷ closed ∷ [];
  gid = 0;
  uid = 0;
  parent = 0;
  child = [];
  child_count = 0;
}

abbrev alone : Procs ℕ
alone = record {
  processes = shell ∷ [];
  next_pid = 2;
  curr_pid = 1;
  proc_count = 1;
  ticks = 0;
  sched_rec = replicate sched_reccount 0;
}

opened-bin :
    nl_open tree 9 mounts alone 7 bin 0 ≡ some (value 1, store alone 1 1 (opened shell 1 0), 7)
unfolding nl_open process_curr process_frompid find free_from fs_resolve resolve_mount skip_slash
    has_prefix str_eq fs_node_resolve fs_node_open dirname
opened-bin = refl

nl_open-IsLowest_example : IsLowest shell.fd 1
unfolding process_curr process_frompid find
nl_open-IsLowest_example = nl_open-IsLowest tree 9 mounts alone 7 bin 0 shell refl opened-bin

closed_first : nl_close tree alone 7 0 ≡ some (value 0, store alone 1 0 (clear_fd used_fd), 7)
unfolding nl_close process_curr process_frompid find fs_node_close bad_fd
closed_first = refl

write_fails : fs_node_write tree mounts 9 7 1 100 (1 ∷ []) ≡ some (as_size (failed eio), 7)
unfolding fs_node_write fs_node_type_get mode_of
write_fails = refl

nl_write_rewinds_example :
    nl_write tree 9 mounts alone 7 0 (1 ∷ [])
    ≡ some (
      as_size (failed eio),
      store alone 1 0 (record used_fd { offset = 100 - errno_code eio }),
      7,
    )
unfolding process_curr process_frompid find bad_fd errno_code
nl_write_rewinds_example =
    nl_write_rewinds tree 9 mounts alone 7 0 (1 ∷ []) shell 1 eio 7 refl refl refl write_fails
      (omega arith) (omega arith)
