-- ===== src/Security/Creds.antt =====
-- crates/kobako-runtime/src/vfs/cred.rs: the security modules of a caller, asked in turn, and the
-- memory held for it. What other modules than Policies keep on a file is an arbitrary type.
pub mod Committed
use kobako.Common.{ℕ, Bool, Option, none, some, List, [], ◌∷◌, ◌++◌, Result, ok, err}
use kobako.Common.Outcomes.{◌>>=◌}
use kobako.Security.Files.{FilesystemError, FileType, Access, FMode, Mask}
use kobako.Security.OpenFlags.{OpenHow}

-- `Result<(), FilesystemError>`
abbrev pub Verdict : Type 0
Verdict = Result (Unit {0}) FilesystemError

-- A mount is its identity, and a path's name is what the module would read of it.
pub record SecurityPath : Type 0 where
  pub mnt : ℕ
  pub name : List ℕ

-- A dentry is its identity and what `kind` answers.
pub record Dentry : Type 0 where
  pub id : ℕ
  pub kind : Result FileType FilesystemError

-- What a module keeps on a file: `AllowedAccess`, or another module's value.
pub data Blob (B : Type 0) : Type 0 where
  allowed_access : Access → Blob B
  foreign : B → Blob B

pub record SecurityOperations (B : Type 0) : Type 0 where
  pub inode_permission : Dentry → Mask → Verdict
  pub path_mknod : SecurityPath → Verdict
  pub path_mkdir : SecurityPath → Verdict
  pub path_rmdir : SecurityPath → Verdict
  pub path_unlink : SecurityPath → Verdict
  pub path_symlink : SecurityPath → Verdict
  pub path_link : SecurityPath → SecurityPath → Verdict
  pub path_rename : SecurityPath → SecurityPath → Dentry → Dentry → Verdict
  pub file_open :
      SecurityPath → FileType → FMode → OpenHow → Result (Option (Blob B)) FilesystemError
  pub file_truncate : Option (Blob B) → Verdict
  pub path_utimes : SecurityPath → Verdict
  pub inode_readlink : Dentry → Verdict

-- The hooks that a module does not have.
abbrev pub allowing : {B : Type 0} → SecurityOperations B
allowing = record {
  inode_permission = λ dentry mask. ok tt;
  path_mknod = λ path. ok tt;
  path_mkdir = λ path. ok tt;
  path_rmdir = λ path. ok tt;
  path_unlink = λ path. ok tt;
  path_symlink = λ path. ok tt;
  path_link = λ old new. ok tt;
  path_rename = λ old new old_dentry new_dentry. ok tt;
  file_open = λ path kind mode how. ok none;
  file_truncate = λ kept. ok tt;
  path_utimes = λ path. ok tt;
  inode_readlink = λ dentry. ok tt;
}

module _ {B : Type 0} where
  unfoldable pub call_int_hook :
      (SecurityOperations B → Verdict) → List (SecurityOperations B) → Verdict
  call_int_hook hook [] = ok tt
  call_int_hook hook (module_ ∷ rest) = do allowed ← hook module_; call_int_hook hook rest

  -- `collect` stops at the first refusal.
  unfoldable pub security_file_open :
      SecurityPath
      → FileType
      → FMode
      → OpenHow
      → List (SecurityOperations B)
      → Result (List (Option (Blob B))) FilesystemError
  security_file_open path kind mode how [] = ok []
  security_file_open path kind mode how (module_ ∷ rest) = do
    kept ← module_.file_open path kind mode how
    others ← security_file_open path kind mode how rest
    ok (kept ∷ others)

  -- `zip` stops at the shorter list.
  unfoldable pub security_file_truncate :
      List (Option (Blob B)) → List (SecurityOperations B) → Verdict
  security_file_truncate kept [] = ok tt
  security_file_truncate [] (module_ ∷ rest) = ok tt
  security_file_truncate (k ∷ kept) (module_ ∷ rest) = do
    allowed ← module_.file_truncate k
    security_file_truncate kept rest

  unfoldable pub with_modules :
      List (SecurityOperations B) → List (SecurityOperations B) → List (SecurityOperations B)
  with_modules more security = security ++ more
